-- ===== src/Atomic/Tests.antt =====
-- Runs of src/14.lab_atomic.c with two updates for each thread, and the theorems at them.
use mathlib.Core.List.{foldl}
use native.Mathlib.Decide.{dec_lt}
use qnx_box.Prelude.{
  ℕ, zero, suc, ◌+◌, ◌*◌, ◌≤◌, ◌<◌, ◌≡◌, refl, Bool, true, false, ◌⊎◌, List, [], ◌∷◌, ◌++◌, arith,
  Option, none, some,
}
use qnx_box.Atomic.{
  number_of_threads, Pc, top, adding, reading, holding, finished, Shared, Move, atomic, plain,
  fetch_add, read, write, finish, System, Step, pick, init, Run, start, next, IsJoined,
}
use qnx_box.Atomic.Counting.{Found, counting_ends}

-- A reachable state with the way to it.
record Trace (b : Bool) : Type 0 where
  count : ℕ
  last : System
  way : Run 2 b count last

enter_move :
    (b : Bool) (m : Shared) (i : ℕ) → i < 2 → (m' : Shared) × (p : Pc) × Move 2 b m (top i) m' p
enter_move true m i lt = (_, _, atomic refl lt)
enter_move false m i lt = (_, _, plain refl lt)

next_move :
    (b : Bool) (m : Shared) (p : Pc) → Option ((m' : Shared) × (p' : Pc) × Move 2 b m p m' p')
unfolding enter_move dec_lt
next_move b m (top i) = elim (dec_lt i 2) [
  | yes small ↦ some (enter_move b m i small)
  | no large ↦ some (_, _, finish (omega arith))
]
next_move b m (adding i) = some (_, _, fetch_add)
next_move b m (reading i) = some (_, _, read)
next_move b m (holding i old) = some (_, _, write)
next_move b m finished = none

-- A turn of thread `t`; nothing happens when it has returned.
turn : {b : Bool} → Trace b → ℕ → Trace b
unfolding next_move dec_lt
turn {b} r t = elim (dec_lt t number_of_threads) [
  | no _ ↦ r
  | yes lt ↦ elim (next_move b r.last.mem (r.last.pc t)) [
    | none ↦ r
    | some (m, p, mv) ↦ record { count = _; last = _; way = next r.way (pick t lt mv) }
  ]
]

abbrev repeat : ℕ → List ℕ → List ℕ
repeat zero ts = []
repeat (suc n) ts = ts ++ repeat n ts

-- The four threads take turns, up to the end.
full : (b : Bool) → Trace b
unfolding turn
full b = foldl turn (record { count = 0; last = init; way = start }) (repeat 7 (3 ∷ 1 ∷ 0 ∷ 2 ∷ []))

-- Taking turns, the threads lose three of four updates.
plain_loses : (full true).last.mem.at_value ≡ 8 × (full false).last.mem.value ≡ 2
unfolding full
plain_loses = (refl, refl)

counting_ends_example :
    ((full true).count ≤ 4 * (3 * 2 + 1))
    × ((IsJoined (full true).last × Found 2 true (full true).last.mem)
        ⊎ ((u : System) × Step 2 true (full true).last u))
counting_ends_example = counting_ends 2 (full true).way
