-- ===== src/Orange/Tests.antt =====
-- Runs of src/12.orange_problem.c by evaluation, and the theorems at such runs.
use mathlib.Core.List.{foldl}
use native.Mathlib.Decide.{dec_lt}
use qnx_box.Prelude.{
  ℕ, zero, suc, ◌+◌, ◌*◌, ◌≤◌, ◌<◌, ◌≡◌, refl, ◌≢◌, ◌⊎◌, Bool, true, false, Option, none, some,
  List, [], ◌∷◌, ◌++◌, arith,
}
use qnx_box.CString.{codes}
use qnx_box.Calls.{Outcome}
use qnx_box.Orange.{init}
use qnx_box.Orange.Main.{Call, Action, orange_problem}
use qnx_box.Orange.{
  choose_mutex, array_size, work_per_thread, alloc_size, is_exhausted, Pc, top, inside, chosen,
  leaving, filling, holding, finished, failed, Shared, Move, acquire, walk_in, refuse, choose,
  claim, release, walk_out, release_null, walk_out_null, load, store, chunk_done, finish, System,
  Step, pick, Run, start, next, IsJoined,
}
use qnx_box.Orange.Invariant.{pending}
use qnx_box.Orange.Cells.{chunks_disjoint}
use qnx_box.Orange.Ending.{always_moving}

abbrev Moved : Bool → ℕ → Shared → Pc → Type 0
Moved b t m p = (m' : Shared) × (p' : Pc) × Move b t m p m' p'

-- The move of a thread at the head of the loop, if it is not blocked.
enter_move :
    (b : Bool) (t d : ℕ) (m : Shared) (l : Option ℕ)
    → m.lock ≡ l
    → d < work_per_thread
    → Option (Moved b t m (top d))
enter_move true t d m none e lt = some (_, _, acquire refl lt e)
enter_move true t d m (some o) e lt = none
enter_move false t d m l e lt = some (_, _, walk_in refl lt)

leave_move : (b : Bool) (t d : ℕ) (m : Shared) (a : Option ℕ) → Moved b t m (leaving d a)
leave_move true t d m none = (_, _, release_null refl)
leave_move true t d m (some a) = (_, _, release refl)
leave_move false t d m none = (_, _, walk_out_null refl)
leave_move false t d m (some a) = (_, _, walk_out refl)

alloc_move :
    (b : Bool) (t d : ℕ) (m : Shared) (c : Bool)
    → is_exhausted m.allocated ≡ c
    → Moved b t m (inside d)
alloc_move b t d m true e = (_, _, refuse e)
alloc_move b t d m false e = (_, _, choose e)

next_move : (b : Bool) (t : ℕ) (m : Shared) (p : Pc) → Option (Moved b t m p)
unfolding enter_move leave_move dec_lt alloc_move
next_move b t m (top d) = elim (dec_lt d work_per_thread) [
  | yes lt ↦ enter_move b t d m m.lock refl lt
  | no end ↦ some (_, _, finish (omega arith))
]
next_move b t m (inside d) = some (alloc_move b t d m (is_exhausted m.allocated) refl)
next_move b t m (chosen d a) = some (_, _, claim)
next_move b t m (leaving d a) = some (leave_move b t d m a)
next_move b t m (filling d a i) = elim (dec_lt i alloc_size) [
  | yes lt ↦ some (_, _, load lt)
  | no end ↦ some (_, _, chunk_done (omega arith))
]
next_move b t m (holding d a i v) = some (_, _, store)
next_move b t m finished = none
next_move b t m failed = none

-- A run with its length and its last state.
record Trace (b : Bool) (n : ℕ) : Type 0 where
  steps : ℕ
  last : System
  run : Run b n steps last

-- A turn of thread `t`; nothing happens when it is blocked or has returned.
turn : {b : Bool} {n : ℕ} → Trace b n → ℕ → Trace b n
unfolding next_move
turn {b} {n} r t = elim (dec_lt t n) [
  | no _ ↦ r
  | yes lt ↦ elim (next_move b t r.last.mem (r.last.pc t)) [
    | none ↦ r
    | some (m, p, mv) ↦ record { steps = suc r.steps; last = _; run = next r.run (pick t lt mv) }
  ]
]

trace : (b : Bool) (n : ℕ) → List ℕ → Trace b n
unfolding turn
trace b n = foldl turn (record { steps = 0; last = _; run = start })

abbrev repeat : ℕ → List ℕ → List ℕ
repeat zero ts = []
repeat (suc n) ts = ts ++ repeat n ts

-- One thread does its whole share.
abbrev alone : Trace true 1
alone = trace true 1 (repeat 560 (0 ∷ []))

alone_steps : (alone.steps ≡ 551) × (alone.last.mem.allocated ≡ 250)
unfolding trace
alone_steps = (refl, refl)

alone-IsJoined : IsJoined 1 alone.last
unfolding trace
alone-IsJoined zero lt = refl
alone-IsJoined (suc t) lt = absurd (omega arith)

-- Two threads, each in the middle of its chunk.
abbrev together : Trace true 2
together = trace true 2 (repeat 20 (0 ∷ 1 ∷ []))

chunks_disjoint_example :
    (together.last.pc 0 ≢ failed)
    × ((d a i v : ℕ) → together.last.pc 0 ≡ holding d a i v → a + i < array_size)
    × ((u i : ℕ)
        → u < 2
        → pending i (together.last.pc 0) ≡ 1
        → pending i (together.last.pc u) ≡ 1
        → 0 ≡ u)
chunks_disjoint_example = chunks_disjoint (omega arith) together.run 0 (omega arith)

always_moving_example :
    (together.steps ≤ 2 * 551)
    × (IsJoined 2 together.last ⊎ ((u : System) × Step true 2 together.last u))
always_moving_example = always_moving (omega arith) together.run

-- Without the mutex both threads get the first chunk.
abbrev racing : Trace false 2
racing = trace false 2 (repeat 5 (0 ∷ 1 ∷ []))

racing_overlaps : (racing.last.pc 0 ≡ holding 25 0 0 0) × (racing.last.pc 1 ≡ holding 25 0 0 0)
unfolding trace
racing_overlaps = (refl, refl)

-- The mutex is not used unless it is asked for.
no_mutex_asked :
    (choose_mutex (codes "box" ∷ codes "orange_problem" ∷ []) ≡ some false)
    × (choose_mutex (codes "box" ∷ codes "orange_problem" ∷ codes "sync" ∷ []) ≡ some true)
no_mutex_asked = (refl, refl)

-- The four threads take turns.
abbrev all_four : Trace true 4
all_four = trace true 4 (repeat 560 (0 ∷ 1 ∷ 2 ∷ 3 ∷ []))

abbrev no_error : Call → ℕ
no_error c = 0

abbrev with_mutex : List (List ℕ)
with_mutex = [] ∷ [] ∷ codes "sync" ∷ []

abbrev printed_by_four : Outcome Call Action
printed_by_four = orange_problem no_error with_mutex init.mem.array all_four.last.mem.array
