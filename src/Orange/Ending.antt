-- ===== src/Orange/Ending.antt =====
-- The threads of src/12.orange_problem.c all return: no run is longer than 551 steps for each thread,
-- and with the mutex none gets stuck before.
use mathlib.Core.Path.{subst}
use native.Mathlib.Decide.{dec_lt}
use qnx_box.Prelude.{
  ℕ, suc, ◌+◌, ◌-◌, ◌*◌, ◌/◌, ◌%◌, ◌≤◌, ◌<◌, ◌≡◌, refl, sym, ◌⊎◌, inl, inr, Bool, true, false, none,
  some, arith, weigh, weigh-update, weigh-const, Option-cases, Bool-cases, find_failing,
}
use qnx_box.Orange.{
  work_per_thread, alloc_size, number_of_threads, is_exhausted, Pc, top, inside, chosen, leaving,
  filling, holding, finished, failed, Shared, Move, acquire, walk_in, refuse, choose, claim,
  release, load, store, chunk_done, finish, System, Step, pick, Run, start, next, IsJoined,
}
use qnx_box.Orange.Invariant.{IsInRange, is_critical, Inv}
use qnx_box.Orange.Cells.{Run-Inv}

-- The steps that a thread has still to make at most: 55 for each chunk.
abbrev pub steps_left : Pc → ℕ
steps_left (top d) = 55 * ((250 - d) / 25) + 1
steps_left (inside d) = 55 * ((250 - d) / 25)
steps_left (chosen d _) = 55 * ((250 - d) / 25) - 1
steps_left (leaving d none) = 1
steps_left (leaving d (some _)) = 55 * ((250 - d) / 25) - 2
steps_left (filling d _ i) = 55 * ((250 - d) / 25) + 52 - 2 * i
steps_left (holding d _ i _) = 55 * ((250 - d) / 25) + 51 - 2 * i
steps_left finished = 0
steps_left failed = 0

-- What holds of a thread with and without the mutex.
abbrev IsCounted : Pc → Type 0
IsCounted (top d) = (d ≤ 250) × (d % 25 ≡ 0)
IsCounted (inside d) = (d < 250) × (d % 25 ≡ 0)
IsCounted (chosen d _) = (d < 250) × (d % 25 ≡ 0)
IsCounted (leaving d _) = (d < 250) × (d % 25 ≡ 0)
IsCounted (filling d _ i) = (d ≤ 250) × (d % 25 ≡ 0) × (i ≤ 25)
IsCounted (holding d _ i _) = (d ≤ 250) × (d % 25 ≡ 0) × (i < 25)
IsCounted finished = Unit
IsCounted failed = Unit

Move-IsCounted :
    {b : Bool} {t : ℕ} {m m' : Shared} {p p' : Pc}
    → Move b t m p m' p'
    → IsCounted p
    → IsCounted p' × (suc (steps_left p') ≤ steps_left p)
Move-IsCounted (acquire u i f) h = ground (arith, i)
Move-IsCounted (walk_in f i) h = ground (arith, i)
Move-IsCounted (finish g) h = ground (arith, g)
Move-IsCounted (load i) h = ground (arith, i)
Move-IsCounted (chunk_done g) h = ground (arith, g)
Move-IsCounted mv h = ground arith

record Counted (n k : ℕ) (s : System) : Type 0 where
  range : (t : ℕ) → IsCounted (s.pc t)
  left : k + weigh steps_left n s.pc ≤ n * 551

Run-Counted : {b : Bool} {n k : ℕ} {s : System} → Run b n k s → Counted n k s
Run-Counted {n} start = record {
  range = λ t. (omega arith, omega arith);
  left = omega (arith, weigh-const steps_left 551 n (λ _. top 0) (λ i lt. refl));
}
Run-Counted {n} (next {k} {s} r (pick t {p} lt mv)) =
    let c = Run-Counted r in
    let moved = Move-IsCounted mv (c.range t) in
    record {
      range = λ j. ground (arith, c.range j, moved.0);
      left = omega (arith, c.left, moved.1, weigh-update steps_left n s.pc t p lt);
    }

-- Whatever the schedule, with and without the mutex, `n` threads make at most 551 steps each.
pub steps_bound : {b : Bool} {n k : ℕ} {s : System} → Run b n k s → k ≤ n * 551
steps_bound r = omega (arith, (Run-Counted r).left)

-- A thread in the critical section is not blocked.
critical_moves :
    (t : ℕ) (m : Shared) (p : Pc)
    → is_critical p ≡ true
    → IsInRange p
    → (m' : Shared) × (p' : Pc) × Move true t m p m' p'
critical_moves t m (inside d) c h = elim (Bool-cases (is_exhausted m.allocated)) [
  | inl e ↦ (_, _, refuse e)
  | inr e ↦ (_, _, choose e)
]
critical_moves t m (chosen d a) c h = (_, _, claim)
critical_moves t m (leaving d (some a)) c h = (_, _, release refl)
critical_moves t m (leaving d none) c h = absurd h
critical_moves t m p c h = absurd (ground arith)

abbrev pub is_finished : Pc → Bool
is_finished finished = true
is_finished _ = false

module _ {n : ℕ} {s : System} (inv : Inv n s) where
  moved_at :
      (t : ℕ) {p p' : Pc} {m' : Shared}
      → t < n
      → s.pc t ≡ p
      → Move true t s.mem p m' p'
      → (u : System) × Step true n s u
  moved_at t {p'} {m'} lt e mv = (_, pick t lt (subst (λ q. Move true t s.mem q m' p') (sym e) mv))

  critical_at : (t : ℕ) → t < n → is_critical (s.pc t) ≡ true → (u : System) × Step true n s u
  critical_at t lt c =
      let (m', p', mv) = critical_moves t s.mem (s.pc t) c (inv.range t) in (_, pick t lt mv)

  -- Thread `t` before the loop's test: it goes on, or the owner of the lock does.
  waiter_moves : (t d : ℕ) → t < n → s.pc t ≡ top d → (u : System) × Step true n s u
  waiter_moves t d lt e = elim (dec_lt d work_per_thread) [
    | no end ↦ moved_at t lt e (finish (omega arith))
    | yes more ↦ elim (Option-cases s.mem.lock) [
      | inl free ↦ moved_at t lt e (acquire refl more free)
      | inr (o, taken) ↦ let (c, lto) = inv.held o taken in critical_at o lto c
    ]
  ]

  filler_moves : (t d a i : ℕ) → t < n → s.pc t ≡ filling d a i → (u : System) × Step true n s u
  filler_moves t d a i lt e = elim (dec_lt i alloc_size) [
    | yes more ↦ moved_at t lt e (load more)
    | no end ↦ moved_at t lt e (chunk_done (omega arith))
  ]

  unfinished_moves :
      (t : ℕ) (p : Pc) → t < n → s.pc t ≡ p → is_finished p ≡ false → (u : System) × Step true n s u
  unfinished_moves t (top d) lt e f = waiter_moves t d lt e
  unfinished_moves t finished lt e f = absurd (cc)
  unfinished_moves t failed lt e f = absurd (ground (arith, inv.range t))
  unfinished_moves t (filling d a i) lt e f = filler_moves t d a i lt e
  unfinished_moves t (holding d a i v) lt e f = moved_at t lt e store
  unfinished_moves t p lt e f = critical_at t lt (ground arith)

-- With the mutex, whatever the schedule: `n` threads, at most four, make at most 551 steps each, and there is no
-- deadlock, since in every reachable state all threads have returned, or one of them can make a step.
pub always_moving :
    {n k : ℕ} {s : System}
    → n ≤ number_of_threads
    → Run true n k s
    → (k ≤ n * 551) × (IsJoined n s ⊎ ((u : System) × Step true n s u))
always_moving {n} {s} few r = (
  steps_bound r,
  elim (find_failing is_finished n s.pc) [
    | inl done ↦ inl (λ t lt. ground (arith, done t lt))
    | inr (t, lt, e) ↦ inr (unfinished_moves (Run-Inv few r) t (s.pc t) lt refl e)
  ],
)
