-- ===== src/Variables/Tests.antt =====
-- Runs of src/11.lab_assignment_2.c by evaluation, and the theorems at such runs.
use mathlib.Core.List.{foldl}
use native.Mathlib.Decide.{dec_lt}
use qnx_box.Prelude.{
  ℕ, zero, suc, ◌*◌, ◌≤◌, ◌<◌, ◌≡◌, refl, ◌⊎◌, Bool, true, false, Option, none, some, List, [], ◌∷◌,
  ◌++◌, arith, ◌==◌, update,
}
use qnx_box.CString.{codes}
use qnx_box.Calls.{run, Ends, Outcome}
use qnx_box.Prelude.{if◌then◌else◌, ◌==◌}
use qnx_box.Variables.Main.{Call, create, Action, program, assignment_2}
use qnx_box.Variables.Main.Prints.{assignment_2_prints, calls, values, all_calls}
use qnx_box.Variables.Main.Exits.{Ordered}
use qnx_box.Variables.{
  Pc, top, locking, inside, testing, reporting, fixing, working, worked, add1, added1, sub1,
  subbed1, add2, added2, sub2, subbed2, leaving, finished, Shared, Move, stay, leave, acquire,
  walk_in, read1, differ, agree, read_fix, fix, read3, work, read_add1, do_add1, read_sub1, do_sub1,
  read_add2, do_add2, read_sub2, do_sub2, release, walk_out, System, pick, stop, init, Reach, here,
  next, IsJoined,
}
use qnx_box.Variables.Equal.{is_critical, variables_equal}
use qnx_box.Variables.Ending.{none_yet, one_more, Next, threads_return}

abbrev Moved : Bool → ℕ → Shared → Pc → Type 0
Moved b t m p = (m' : Shared) × (p' : Pc) × Move b t m p m' p'

top_move : (b : Bool) (t : ℕ) (m : Shared) (d : Bool) → m.done ≡ d → Moved b t m top
top_move b t m true e = (_, _, leave e)
top_move b t m false e = (_, _, stay e)

lock_move :
    (b : Bool) (t : ℕ) (m : Shared) (l : Option ℕ) → m.lock ≡ l → Option (Moved b t m locking)
lock_move true t m none e = some (_, _, acquire refl e)
lock_move true t m (some o) e = none
lock_move false t m l e = some (_, _, walk_in refl)

unlock_move : (b : Bool) (t : ℕ) (m : Shared) → Moved b t m leaving
unlock_move true t m = (_, _, release refl)
unlock_move false t m = (_, _, walk_out refl)

test_move :
    (b : Bool) (t v : ℕ) (m : Shared) (c : Bool) → (v == m.var2) ≡ c → Moved b t m (testing v)
test_move b t v m true e = (_, _, agree (ground arith))
test_move b t v m false e = (_, _, differ (λ h. ground arith))

next_move : (b : Bool) (t : ℕ) (m : Shared) (p : Pc) → Option (Moved b t m p)
unfolding top_move lock_move unlock_move test_move
next_move b t m top = some (top_move b t m m.done refl)
next_move b t m locking = lock_move b t m m.lock refl
next_move b t m inside = some (_, _, read1)
next_move b t m (testing v) = some (test_move b t v m (v == m.var2) refl)
next_move b t m reporting = some (_, _, read_fix)
next_move b t m (fixing v) = some (_, _, fix)
next_move b t m working = some (_, _, read3)
next_move b t m (worked v) = some (_, _, work)
next_move b t m add1 = some (_, _, read_add1)
next_move b t m (added1 v) = some (_, _, do_add1)
next_move b t m sub1 = some (_, _, read_sub1)
next_move b t m (subbed1 v) = some (_, _, do_sub1)
next_move b t m add2 = some (_, _, read_add2)
next_move b t m (added2 v) = some (_, _, do_add2)
next_move b t m sub2 = some (_, _, read_sub2)
next_move b t m (subbed2 v) = some (_, _, do_sub2)
next_move b t m leaving = some (unlock_move b t m)
next_move b t m finished = none

-- A reachable state with the way to it.
record Trace (b : Bool) (n : ℕ) : Type 0 where
  last : System
  way : Reach b n init last

-- A turn of thread `t`; nothing happens when it is blocked or has returned.
turn : {b : Bool} {n : ℕ} → Trace b n → ℕ → Trace b n
unfolding next_move dec_lt
turn {b} {n} r t = elim (dec_lt t n) [
  | no _ ↦ r
  | yes lt ↦ elim (next_move b t r.last.mem (r.last.pc t)) [
    | none ↦ r
    | some (m, p, mv) ↦ record { last = _; way = next r.way (pick t lt mv) }
  ]
]

trace : (b : Bool) (n : ℕ) → List ℕ → Trace b n
unfolding turn
trace b n = foldl turn (record { last = _; way = here })

abbrev repeat : ℕ → List ℕ → List ℕ
repeat zero ts = []
repeat (suc n) ts = ts ++ repeat n ts

-- Two threads take turns; each goes through its loop twice or so.
abbrev alternating : Trace true 2
alternating = trace true 2 (repeat 40 (0 ∷ 1 ∷ []))

alternating_counts : (alternating.last.mem.var1 ≡ 3) × (alternating.last.mem.reports ≡ 0)
unfolding trace
alternating_counts = (refl, refl)

variables_equal_example :
    (alternating.last.mem.reports ≡ 0)
    × (((t : ℕ) → t < 2 → is_critical (alternating.last.pc t) ≡ false)
        → (alternating.last.mem.var1 ≡ alternating.last.mem.var2)
          × (alternating.last.mem.var3 ≡ alternating.last.mem.var2))
variables_equal_example = variables_equal alternating.way

-- Without the mutex a thread sees the other one between its two additions.
abbrev racing : Trace false 2
racing = trace false 2 (repeat 10 (0 ∷ []) ++ repeat 5 (1 ∷ []))

racing_reports : racing.last.mem.reports ≡ 1
unfolding trace
racing_reports = refl

-- The main thread sets `done` before the threads do anything.
abbrev stopped : System
stopped = record { mem = record init.mem { done = true }; pc = λ t. top }

abbrev one_left : System
one_left = record { mem = stopped.mem; pc = update stopped.pc 0 finished }

threads_return_example : (1 ≤ 2 * 18) × (IsJoined 2 one_left ⊎ Next 2 one_left)
threads_return_example =
    threads_return (next here stop) refl
      (one_more {s = stopped} none_yet (omega arith) (leave refl))

-- The third thread cannot be created.
abbrev no_third : Call → ℕ
no_third (create i) = if i == 2 then 12 else 0
no_third _ = 0

abbrev cut_short : Outcome Call Action
cut_short = assignment_2 no_third ([] ∷ [] ∷ codes "no_sync" ∷ []) 10 0 0

cut_short_status : cut_short.status ≡ 1
unfolding assignment_2 run
cut_short_status = refl

-- Four threads take turns until `done` is set, and then until they have returned.
abbrev all_four : Trace true 4
all_four =
    foldl turn
      (record { last = _; way = next (trace true 4 (repeat 40 (0 ∷ 1 ∷ 2 ∷ 3 ∷ []))).way stop })
      (repeat 90 (0 ∷ 1 ∷ 2 ∷ 3 ∷ []))

all_four-IsJoined : IsJoined 4 all_four.last
unfolding trace
all_four-IsJoined zero lt = refl
all_four-IsJoined (suc zero) lt = refl
all_four-IsJoined (suc (suc zero)) lt = refl
all_four-IsJoined (suc (suc (suc zero))) lt = refl
all_four-IsJoined (suc (suc (suc (suc t)))) lt = absurd (omega arith)

-- Every call succeeds.
abbrev succeeds : Call → ℕ
succeeds _ = 0

abbrev whole_run : Outcome Call Action
whole_run =
    assignment_2 succeeds ([] ∷ [] ∷ codes "sync" ∷ []) 10 all_four.last.mem.var1
      all_four.last.mem.var2

assignment_2_prints_example :
    Ends succeeds (program true 10 all_four.last.mem.var1 all_four.last.mem.var2) whole_run
    × Ordered true whole_run.events
    × (whole_run.status ≡ 0
        → (calls whole_run.events ≡ all_calls 10)
          × (values whole_run.events ≡ (all_four.last.mem.var3, all_four.last.mem.var3) ∷ []))
assignment_2_prints_example =
    assignment_2_prints succeeds ([] ∷ [] ∷ codes "sync" ∷ []) 10 refl all_four.way
      all_four-IsJoined
