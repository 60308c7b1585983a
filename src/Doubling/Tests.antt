-- ===== src/Doubling/Tests.antt =====
-- A run of src/09.lab_assignment_1.c by evaluation, and the theorems at it.
use mathlib.Core.List.{foldl}
use native.Mathlib.Decide.{dec_lt}
use qnx_box.Prelude.{
  ℕ, zero, suc, ◌*◌, ◌≤◌, ◌<◌, ◌≡◌, refl, ◌⊎◌, List, [], ◌∷◌, ◌++◌, arith, Option, none, some,
}
use qnx_box.Doubling.{
  thread_count, array_length, Pc, top, holding, finished, Move, read, write, finish, System, Step,
  pick, init, Run, start, next, IsJoined,
}
use qnx_box.Doubling.Doubled.{array_doubled}
use qnx_box.Doubling.Ending.{doubling_ends}

-- A reachable state with the way to it.
record Trace : Type 0 where
  count : ℕ
  last : System
  way : Run count last

next_move :
    (t : ℕ) (array : ℕ → ℕ) (p : Pc) → Option ((a : ℕ → ℕ) × (p' : Pc) × Move t array p a p')
next_move t array (top i e) = elim (dec_lt i e) [
  | yes small ↦ some (_, _, read small)
  | no large ↦ some (_, _, finish (omega arith))
]
next_move t array (holding i e old) = some (_, _, write)
next_move t array finished = none

-- A turn of thread `t`; nothing happens when it has returned.
turn : Trace → ℕ → Trace
unfolding next_move dec_lt
turn r t = elim (dec_lt t thread_count) [
  | no _ ↦ r
  | yes lt ↦ elim (next_move t r.last.array (r.last.pc t)) [
    | none ↦ r
    | some (a, p, mv) ↦ record { count = _; last = _; way = next r.way (pick t lt mv) }
  ]
]

abbrev repeat : ℕ → List ℕ → List ℕ
repeat zero ts = []
repeat (suc n) ts = ts ++ repeat n ts

-- The four threads take turns, up to the end.
full : Trace
unfolding turn
full = foldl turn (record { count = 0; last = init; way = start }) (repeat 51 (3 ∷ 1 ∷ 0 ∷ 2 ∷ []))

full_length : full.count ≡ 204
unfolding full
full_length = refl

full-IsJoined : IsJoined full.last
unfolding full
full-IsJoined zero lt = refl
full-IsJoined (suc zero) lt = refl
full-IsJoined (suc (suc zero)) lt = refl
full-IsJoined (suc (suc (suc zero))) lt = refl
full-IsJoined (suc (suc (suc (suc t)))) lt = absurd (omega arith)

full_doubled : full.last.array 99 ≡ 198
full_doubled = array_doubled full.way full-IsJoined 99 (omega arith)

doubling_ends_example :
    (full.count ≤ 204)
    × ((IsJoined full.last × ((i : ℕ) → i < array_length → full.last.array i ≡ i * 2))
        ⊎ ((u : System) × Step full.last u))
doubling_ends_example = doubling_ends full.way
