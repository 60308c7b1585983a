-- ===== src/Prelude/Families.antt =====
-- Families indexed by a thread's number: update at one thread, and the sum of a weight over the
-- first `n` threads.
use Prim.Native.Nat.{ℕ, zero, suc, ◌+◌, ◌*◌, ◌≤◌, ◌<◌}
use mathlib.Core.Path.{◌≡◌, refl}
use native.Mathlib.Decide.{dec_lt}
use native.Mathlib.Omega.{arith}
use mathlib.Core.Bool.{Bool, true, false}
use mathlib.Core.Logic.{◌⊎◌, inl, inr}
use qnx_box.Prelude.Tests.{◌==◌, if◌then◌else◌, Bool-cases}

abbrev pub update {ℓ} : {A : Type ℓ} → (ℕ → A) → ℕ → A → ℕ → A
update f i a j = if i == j then a else f j

module _ {ℓ} {A : Type ℓ} (w : A → ℕ) where
  pub weigh : ℕ → (ℕ → A) → ℕ
  weigh zero f = 0
  weigh (suc n) f = w (f n) + weigh n f

  -- The update of a thread beyond the first `n` is not seen.
  weigh-update_beyond :
      (n : ℕ) (f : ℕ → A) (i : ℕ) (a : A) → n ≤ i → weigh n (update f i a) ≡ weigh n f
  unfolding weigh
  weigh-update_beyond zero f i a h = refl
  weigh-update_beyond (suc n) f i a h = ground (arith, weigh-update_beyond n f i a)

  -- What an update of thread `i` does to the sum.
  pub weigh-update :
      (n : ℕ) (f : ℕ → A) (i : ℕ) (a : A)
      → i < n
      → weigh n (update f i a) + w (f i) ≡ weigh n f + w a
  unfolding weigh
  weigh-update zero f i a h = absurd (omega arith)
  weigh-update (suc n) f i a h = elim (dec_lt i n) [
    | yes p ↦ ground (arith, weigh-update n f i a p)
    | no p ↦ ground (arith, weigh-update_beyond n f i a)
  ]

  -- Where every thread weighs `c`, the sum is `n * c`.
  pub weigh-const : (c n : ℕ) (f : ℕ → A) → ((i : ℕ) → i < n → w (f i) ≡ c) → weigh n f ≡ n * c
  unfolding weigh
  weigh-const c zero f h = omega arith
  weigh-const c (suc n) f h =
      omega (arith, h n (omega arith), weigh-const c n f (λ i p. h i (omega arith)))

  -- One thread weighs at most the whole.
  pub weigh-le : (n : ℕ) (f : ℕ → A) (i : ℕ) → i < n → w (f i) ≤ weigh n f
  unfolding weigh
  weigh-le zero f i h = absurd (omega arith)
  weigh-le (suc n) f i h = elim (dec_lt i n) [
    | yes p ↦ omega (arith, weigh-le n f i p)
    | no p ↦ ground arith
  ]

  -- Where no thread weighs more than `c`, the sum is at most `n * c`.
  pub weigh-bound : (c n : ℕ) (f : ℕ → A) → ((i : ℕ) → i < n → w (f i) ≤ c) → weigh n f ≤ n * c
  unfolding weigh
  weigh-bound c zero f h = omega arith
  weigh-bound c (suc n) f h =
      omega (arith, h n (omega arith), weigh-bound c n f (λ i p. h i (omega arith)))

-- Either all of the first `n` threads pass the test, or one of them does not.
pub find_failing {ℓ} :
    {A : Type ℓ} (p : A → Bool) (n : ℕ) (f : ℕ → A)
    → ((t : ℕ) → t < n → p (f t) ≡ true) ⊎ ((t : ℕ) × (t < n) × (p (f t) ≡ false))
find_failing p zero f = inl (λ t lt. absurd (omega arith))
find_failing p (suc n) f = elim (find_failing p n f) [
  | inr (t, lt, e) ↦ inr (t, omega arith, e)
  | inl below ↦ elim (Bool-cases (p (f n))) [
    | inr e ↦ inr (n, omega arith, e)
    | inl e ↦ inl (λ t lt. elim (dec_lt t n) [ yes l ↦ below t l | no g ↦ ground arith ])
  ]
]
