-- ===== src/Mutex/Ending.antt =====
-- The threads of src/10.lab_mutex.c all return: no run is longer than 21 steps for each thread, and
-- with the mutex none gets stuck before.
use mathlib.Core.Path.{subst}
use native.Mathlib.Decide.{dec_lt}
use qnx_box.Prelude.{
  ℕ, zero, suc, ◌+◌, ◌-◌, ◌*◌, ◌≤◌, ◌<◌, ◌≡◌, refl, sym, ◌≢◌, ◌⊎◌, inl, inr, Bool, true, arith,
  weigh, weigh-update, weigh-const, Option-cases,
}
use qnx_box.Mutex.{
  rounds, Pc, top, inside, holding, leaving, finished, Shared, Move, acquire, walk_in, load, store,
  release, finish, System, Step, pick, Run, start, next, IsJoined,
}
use qnx_box.Mutex.Invariant.{is_critical, IsInRange, Move-IsInRange, Locked, Run-Locked}

-- The steps that a thread has still to make.
abbrev pub steps_left : Pc → ℕ
steps_left (top i) = 4 * (rounds - i) + 1
steps_left (inside i) = 4 * (rounds - i)
steps_left (holding i _) = 4 * (rounds - i) - 1
steps_left (leaving i) = 4 * (rounds - i) - 2
steps_left finished = 0

Move-steps_left :
    {b : Bool} {t : ℕ} {m m' : Shared} {p p' : Pc}
    → Move b t m p m' p'
    → IsInRange p
    → steps_left p ≡ suc (steps_left p')
Move-steps_left (acquire u i f) h = omega arith
Move-steps_left (walk_in f i) h = omega arith
Move-steps_left (finish g) h = omega arith
Move-steps_left mv h = ground arith

record Counted (n k : ℕ) (s : System) : Type 0 where
  range : (t : ℕ) → IsInRange (s.pc t)
  left : k + weigh steps_left n s.pc ≡ n * 21

Run-Counted : {b : Bool} {n k : ℕ} {s : System} → Run b n k s → Counted n k s
Run-Counted {n} start = record {
  range = λ t. omega arith;
  left = omega (arith, weigh-const steps_left 21 n (λ _. top 0) (λ i lt. refl));
}
Run-Counted {n} (next {k} {s} r (pick t {p} lt mv)) =
    let c = Run-Counted r in
    record {
      range = λ j. ground (arith, c.range j, Move-IsInRange mv (c.range t));
      left =
          omega
            (arith, c.left, Move-steps_left mv (c.range t), weigh-update steps_left n s.pc t p lt);
    }

-- Whatever the schedule, `n` threads make at most 21 steps each.
pub length_bound : {b : Bool} {n k : ℕ} {s : System} → Run b n k s → k ≤ n * 21
length_bound r = omega (arith, (Run-Counted r).left)

-- Either all of the first `n` threads have returned, or one of them has not.
find_unfinished :
    (n : ℕ) (pc : ℕ → Pc)
    → ((t : ℕ) → t < n → pc t ≡ finished) ⊎ ((t : ℕ) × (t < n) × (pc t ≢ finished))
find_unfinished zero pc = inl (λ t lt. absurd (omega arith))
find_unfinished (suc n) pc = last (pc n) refl (find_unfinished n pc)
  where
    last :
        (p : Pc)
        → pc n ≡ p
        → ((t : ℕ) → t < n → pc t ≡ finished) ⊎ ((t : ℕ) × (t < n) × (pc t ≢ finished))
        → ((t : ℕ) → t < suc n → pc t ≡ finished) ⊎ ((t : ℕ) × (t < suc n) × (pc t ≢ finished))
    last p e (inr (t, lt, ne)) = inr (t, omega arith, ne)
    last finished e (inl done) =
        inl (λ t lt. elim (dec_lt t n) [ yes below ↦ done t below | no other ↦ ground arith ])
    last (top i) e (inl done) = inr (n, omega arith, λ h. cc)
    last (inside i) e (inl done) = inr (n, omega arith, λ h. cc)
    last (holding i l) e (inl done) = inr (n, omega arith, λ h. cc)
    last (leaving i) e (inl done) = inr (n, omega arith, λ h. cc)

-- A thread in the critical section is not blocked.
critical_moves :
    (t : ℕ) (m : Shared) (p : Pc)
    → is_critical p ≡ true
    → (m' : Shared) × (p' : Pc) × Move true t m p m' p'
critical_moves t m (top i) c = absurd (cc)
critical_moves t m (inside i) c = (_, _, load)
critical_moves t m (holding i l) c = (_, _, store)
critical_moves t m (leaving i) c = (_, _, release refl)
critical_moves t m finished c = absurd (cc)

module _ {n : ℕ} {s : System} (inv : Locked n s) where
  moved_at :
      (t : ℕ) {p p' : Pc} {m' : Shared}
      → t < n
      → s.pc t ≡ p
      → Move true t s.mem p m' p'
      → (u : System) × Step true n s u
  moved_at t {p'} {m'} lt e mv = (_, pick t lt (subst (λ q. Move true t s.mem q m' p') (sym e) mv))

  -- Thread `t` before the loop's test: it goes on, or the owner of the lock does.
  waiter_moves : (t i : ℕ) → t < n → s.pc t ≡ top i → (u : System) × Step true n s u
  waiter_moves t i lt e = elim (dec_lt i rounds) [
    | no end ↦ moved_at t lt e (finish (omega arith))
    | yes more ↦ elim (Option-cases s.mem.lock) [
      | inl free ↦ moved_at t lt e (acquire refl more free)
      | inr (o, taken) ↦
          let (c, lto) = inv.held o taken in
          let (m', p', mv) = critical_moves o s.mem (s.pc o) c in (_, pick o lto mv)
    ]
  ]

  unfinished_moves :
      (t : ℕ) (p : Pc) → t < n → s.pc t ≡ p → p ≢ finished → (u : System) × Step true n s u
  unfinished_moves t (top i) lt e ne = waiter_moves t i lt e
  unfinished_moves t finished lt e ne = absurd (ne refl)
  unfinished_moves t (inside i) lt e ne = moved_at t lt e load
  unfinished_moves t (holding i l) lt e ne = moved_at t lt e store
  unfinished_moves t (leaving i) lt e ne = moved_at t lt e (release refl)

-- With the mutex there is no deadlock: in every reachable state all threads have returned, or one
-- of them can make a step.
pub never_stuck :
    {n k : ℕ} {s : System} → Run true n k s → IsJoined n s ⊎ ((u : System) × Step true n s u)
never_stuck {n} {s} r = elim (find_unfinished n s.pc) [
  | inl done ↦ inl done
  | inr (t, lt, ne) ↦ inr (unfinished_moves (Run-Locked r) t (s.pc t) lt refl ne)
]
