-- ===== src/Mutex/Tests.antt =====
-- Runs of src/10.lab_mutex.c by evaluation, and the theorems at such runs.
use mathlib.Core.List.{foldl}
use native.Mathlib.Decide.{dec_lt}
use qnx_box.Prelude.{
  ℕ, zero, suc, ◌<◌, ◌≡◌, refl, Bool, true, false, Option, none, some, List, [], ◌∷◌, ◌++◌, arith,
}
use qnx_box.CString.{codes}
use qnx_box.Prelude.{false}
use qnx_box.Calls.{Outcome}
use qnx_box.Mutex.Main.{Call, mutex_init, mutex_destroy, Action, mutex_lab}
use qnx_box.Mutex.{
  rounds, Pc, top, inside, holding, leaving, finished, Shared, Move, acquire, walk_in, load, store,
  release, walk_out, finish, System, pick, Run, start, next,
}

abbrev Moved : Bool → ℕ → Shared → Pc → Type 0
Moved b t m p = (m' : Shared) × (p' : Pc) × Move b t m p m' p'

-- The move of a thread at the head of the loop, if it is not blocked.
enter_move :
    (b : Bool) (t i : ℕ) (m : Shared) (l : Option ℕ)
    → m.lock ≡ l
    → i < rounds
    → Option (Moved b t m (top i))
enter_move true t i m none e lt = some (_, _, acquire refl lt e)
enter_move true t i m (some o) e lt = none
enter_move false t i m l e lt = some (_, _, walk_in refl lt)

leave_move : (b : Bool) (t i : ℕ) (m : Shared) → Moved b t m (leaving i)
leave_move true t i m = (_, _, release refl)
leave_move false t i m = (_, _, walk_out refl)

next_move : (b : Bool) (t : ℕ) (m : Shared) (p : Pc) → Option (Moved b t m p)
unfolding enter_move leave_move dec_lt
next_move b t m (top i) = elim (dec_lt i rounds) [
  | yes lt ↦ enter_move b t i m m.lock refl lt
  | no end ↦ some (_, _, finish (omega arith))
]
next_move b t m (inside i) = some (_, _, load)
next_move b t m (holding i l) = some (_, _, store)
next_move b t m (leaving i) = some (leave_move b t i m)
next_move b t m finished = none

-- A run with its length and its last state.
record Trace (b : Bool) (n : ℕ) : Type 0 where
  steps : ℕ
  last : System
  run : Run b n steps last

-- A turn of thread `t`; nothing happens when it is blocked or has returned.
turn : {b : Bool} {n : ℕ} → Trace b n → ℕ → Trace b n
unfolding next_move
turn {b} {n} r t = elim (dec_lt t n) [
  | no _ ↦ r
  | yes lt ↦ elim (next_move b t r.last.mem (r.last.pc t)) [
    | none ↦ r
    | some (m, p, mv) ↦ record { steps = suc r.steps; last = _; run = next r.run (pick t lt mv) }
  ]
]

trace : (b : Bool) (n : ℕ) → List ℕ → Trace b n
unfolding turn
trace b n = foldl turn (record { steps = 0; last = _; run = start })

abbrev repeat : ℕ → List ℕ → List ℕ
repeat zero ts = []
repeat (suc n) ts = ts ++ repeat n ts

-- Both threads of the source take turns until they have returned.
abbrev alternating : Trace true 2
alternating = trace true 2 (repeat 50 (0 ∷ 1 ∷ []))

alternating_counts : (alternating.last.mem.counter ≡ 10) × (alternating.steps ≡ 42)
unfolding trace
alternating_counts = (refl, refl)

-- Without the mutex the two threads overwrite each other's increments.
abbrev racing : Trace false 2
racing = trace false 2 (repeat 25 (0 ∷ 1 ∷ []))

racing_loses : (racing.last.mem.counter ≡ 5) × (racing.steps ≡ 42)
unfolding trace
racing_loses = (refl, refl)

-- Thread 0 is in the critical section, and thread 1 is blocked.
abbrev contended : Trace true 2
contended = trace true 2 (0 ∷ 1 ∷ 0 ∷ 1 ∷ [])

-- pthread_mutex_init fails with the error 12.
abbrev no_memory : Call → ℕ
no_memory mutex_init = 12
no_memory mutex_destroy = 0

abbrev with_mutex : List (List ℕ)
with_mutex = [] ∷ [] ∷ codes "sync" ∷ []

abbrev not_begun : Outcome Call Action
not_begun = mutex_lab no_memory with_mutex alternating.last.mem.counter
