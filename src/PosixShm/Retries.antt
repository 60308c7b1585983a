-- ===== src/PosixShm/Retries.antt =====
-- The loops of src/23.lab_shm_posix_consumer.c.
use qnx_box.Prelude.{
  ℕ, zero, suc, ◌+◌, ◌-◌, ◌*◌, ◌%◌, ◌^◌, ◌≤◌, ◌<◌, ◌≡◌, refl, ap, Bool, true, false, ◌&&◌, not,
  none, some, arith, if◌then◌else◌, ltb, Bool-cases, inl, inr,
}
use qnx_box.PosixShm.{Tried, go_on, wait_initialized, retry, Os, Outcome, get_shared_memory_pointer}

-- One of the tries from `i` to `i + n` succeeds.
abbrev pub any_success : (ℕ → Bool) → ℕ → ℕ → Bool
any_success success i zero = success i
any_success success i (suc n) = if success i then true else any_success success (i + 1) n

-- The seconds slept up to the first success, or in all `n`.
abbrev pub waits : (ℕ → Bool) → ℕ → ℕ → ℕ
waits success i zero = 0
waits success i (suc n) = if success i then 0 else waits success (i + 1) n + 1

abbrev pub tried : (ℕ → Bool) → ℕ → ℕ → Tried
tried success i n = record { ok = any_success success i n; sleeps = waits success i n }

waits-le : (success : ℕ → Bool) (i n : ℕ) → waits success i n ≤ n
waits-le success i zero = omega arith
waits-le success i (suc n) = ground (arith, waits-le success (i + 1) n)

-- As long as `tries` does not wrap, a loop ends behind `n` more retries.
retry_lem :
    (success : ℕ → Bool) (num n k i tries : ℕ)
    → tries + n ≡ num
    → num < 2 ^ 32 - 1
    → n < k
    → retry success num k i tries ≡ some (tried success i n)
unfolding retry
retry_lem success num n zero i tries e small lt = absurd (omega arith)
retry_lem success num zero (suc k) i tries e small lt = elim (Bool-cases (success i)) [
  | inl ok ↦ rw ok refl
  | inr bad ↦
      let over : ltb num ((tries + 1) % 2 ^ 32) ≡ true = ground (arith, e, small) in
      rw (bad, over) refl
]
retry_lem success num (suc n) (suc k) i tries e small lt = elim (Bool-cases (success i)) [
  | inl ok ↦ rw ok refl
  | inr bad ↦
      let next : (tries + 1) % 2 ^ 32 ≡ tries + 1 = omega (arith, e, small) in
      let under : ltb num (tries + 1) ≡ false = ground (arith, e) in
      rw (bad, next, under)
        (ap go_on
          (retry_lem success num n k (i + 1) (tries + 1) (omega (arith, e)) small (omega arith)))
]

-- With the largest unsigned int for `num_retries` a loop that never succeeds never ends.
retry-endless :
    (success : ℕ → Bool) (k i tries : ℕ)
    → ((j : ℕ) → success j ≡ false)
    → retry success (2 ^ 32 - 1) k i tries ≡ none
unfolding retry
retry-endless success zero i tries h = refl
retry-endless success (suc k) i tries h =
    let under : ltb (2 ^ 32 - 1) ((tries + 1) % 2 ^ 32) ≡ false = ground arith in
    rw (h i, under) (ap go_on (retry-endless success k (i + 1) ((tries + 1) % 2 ^ 32) h))

-- What the function returns, of loops that have ended.
abbrev pub outcome_of : Tried → Tried → Tried → Outcome
outcome_of o m u =
    if o.ok
    then if m.ok
      then wait_initialized (o.sleeps + m.sleeps) u
      else record { ok = false; is_mapped = false; is_open = true; sleeps = o.sleeps + m.sleeps }
    else record { ok = false; is_mapped = false; is_open = false; sleeps = o.sleeps }

loops_end :
    (os : Os) (fuel num : ℕ)
    → num < 2 ^ 32 - 1
    → num < fuel
    → get_shared_memory_pointer os fuel num
      ≡ some
          (outcome_of (tried os.opens 0 num) (tried os.maps 0 num) (tried os.is_initialized 0 num))
unfolding get_shared_memory_pointer
loops_end os fuel num small enough =
    let o = retry_lem os.opens num num fuel 0 0 (omega arith) small enough in
    let m = retry_lem os.maps num num fuel 0 0 (omega arith) small enough in
    let u = retry_lem os.is_initialized num num fuel 0 0 (omega arith) small enough in
    rw (o, m, u)
      (elim (Bool-cases (any_success os.opens 0 num)) [
        | inr e ↦ rw e refl
        | inl e ↦ rw e (elim (Bool-cases (any_success os.maps 0 num)) [
          | inr f ↦ rw f refl
          | inl f ↦ rw f refl
        ])
      ])

-- With the largest unsigned int for `num`, if shm_open never succeeds, no fuel is enough: the counter
-- wraps, and the function does not return.
pub get_shared_memory_pointer-endless :
    (os : Os) (fuel : ℕ)
    → ((j : ℕ) → os.opens j ≡ false)
    → get_shared_memory_pointer os fuel (2 ^ 32 - 1) ≡ none
unfolding get_shared_memory_pointer
get_shared_memory_pointer-endless os fuel h = rw (retry-endless os.opens fuel 0 0 h) refl

-- With `num` retries, which is less than the largest unsigned int, and fuel for `num` + 1 tries of each loop,
-- the function returns after at most three times `num` seconds: with a pointer exactly if each of the
-- three conditions holds at one of its `num` + 1 tries. The object is mapped afterwards exactly if a
-- pointer is returned; the descriptor stays open exactly if mmap was tried and never succeeded.
pub get_shared_memory_pointer_lem :
    (os : Os) (fuel num : ℕ)
    → num < 2 ^ 32 - 1
    → num < fuel
    → (r : Outcome) × (get_shared_memory_pointer os fuel num ≡ some r)
      × (r.ok ≡ (
          any_success os.opens 0 num
          && any_success os.maps 0 num
          && any_success os.is_initialized 0 num))
      × (r.is_mapped ≡ r.ok)
      × (r.is_open ≡ (any_success os.opens 0 num && not (any_success os.maps 0 num)))
      × (r.sleeps ≤ 3 * num)
unfolding get_shared_memory_pointer
get_shared_memory_pointer_lem os fuel num small enough = (
  outcome_of (tried os.opens 0 num) (tried os.maps 0 num) (tried os.is_initialized 0 num),
  loops_end os fuel num small enough,
  ground arith,
  ground arith,
  ground arith,
  ground (arith, waits-le os.opens 0 num, waits-le os.maps 0 num, waits-le os.is_initialized 0 num),
)
