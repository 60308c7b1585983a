-- ===== src/Doubling/Ending.antt =====
-- The threads of src/09.lab_assignment_1.c all return.
use mathlib.Core.Path.{subst}
use native.Mathlib.Decide.{dec_lt}
use qnx_box.Prelude.{
  ℕ, ◌+◌, ◌-◌, ◌*◌, ◌≤◌, ◌<◌, ◌≡◌, refl, sym, ◌⊎◌, inl, inr, Bool, true, false, arith, weigh,
  weigh-update, weigh-const, find_failing,
}
use qnx_box.Doubling.Doubled.{array_doubled}
use qnx_box.Doubling.{
  thread_count, array_length, Pc, top, holding, finished, Move, read, write, finish, System, Step,
  pick, init, Run, start, next, IsJoined,
}

-- The steps that a thread has still to make.
abbrev steps_left : Pc → ℕ
steps_left (top i e) = 2 * (e - i) + 1
steps_left (holding i e old) = 2 * (e - i)
steps_left finished = 0

-- A thread that holds a value has not reached the end.
abbrev IsBefore : Pc → Type 0
IsBefore (holding i e old) = i < e
IsBefore _ = Unit

Move-steps_left :
    {t : ℕ} {array array' : ℕ → ℕ} {p p' : Pc}
    → Move t array p array' p'
    → IsBefore p
    → IsBefore p' × (steps_left p' < steps_left p)
Move-steps_left (read small) h = (small, ground (arith, small))
Move-steps_left (finish large) h = (tt, ground arith)
Move-steps_left write h = (tt, ground arith)

Run-steps_left :
    {k : ℕ} {s : System}
    → Run k s
    → ((t : ℕ) → IsBefore (s.pc t)) × (k + weigh steps_left thread_count s.pc ≤ 204)
Run-steps_left start =
    (λ t. tt, omega (arith, weigh-const steps_left 51 thread_count init.pc (λ i lt. ground arith)))
Run-steps_left (next {s} r (pick t {p} lt mv)) =
    let (before, left) = Run-steps_left r in
    let moved = Move-steps_left mv (before t) in
    (
      λ j. ground (arith, before j, moved.0),
      omega (arith, left, moved.1, weigh-update steps_left thread_count s.pc t p lt),
    )

abbrev is_finished : Pc → Bool
is_finished finished = true
is_finished _ = false

moved_at :
    {s : System} (t : ℕ) {p p' : Pc} {array' : ℕ → ℕ}
    → t < thread_count
    → s.pc t ≡ p
    → Move t s.array p array' p'
    → (u : System) × Step s u
moved_at {s} t {p'} {array'} lt at mv =
    (_, pick t lt (subst (λ q. Move t s.array q array' p') (sym at) mv))

unfinished_moves :
    {s : System} (t : ℕ) (p : Pc)
    → t < thread_count
    → s.pc t ≡ p
    → is_finished p ≡ false
    → (u : System) × Step s u
unfinished_moves {s} t (top i e) lt at f = elim (dec_lt i e) [
  | yes small ↦ moved_at t lt at (read small)
  | no large ↦ moved_at t lt at (finish (omega arith))
]
unfinished_moves {s} t (holding i e old) lt at f = moved_at t lt at write
unfinished_moves t finished lt at f = absurd cc

-- Whatever the schedule: no run has more than 204 steps; and a run that cannot go on is one in which all
-- four threads have returned and every element of the array is twice what it was, as if the array had been
-- doubled from end to end.
pub doubling_ends :
    {k : ℕ} {s : System}
    → Run k s
    → (k ≤ 204)
      × ((IsJoined s × ((i : ℕ) → i < array_length → s.array i ≡ i * 2))
          ⊎ ((u : System) × Step s u))
doubling_ends {s} r = (
  omega (arith, (Run-steps_left r).1),
  elim (find_failing is_finished thread_count s.pc) [
    | inl done ↦
        let joined : IsJoined s = λ t lt. ground (arith, done t lt) in
        inl (joined, array_doubled r joined)
    | inr (t, lt, e) ↦ inr (unfinished_moves t (s.pc t) lt refl e)
  ],
)
