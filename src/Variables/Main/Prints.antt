-- ===== src/Variables/Main/Prints.antt =====
-- What src/11.lab_assignment_2.c calls and prints, with its threads.
use qnx_box.Prelude.{
  ℕ, ◌≡◌, refl, ap, sym, ◌∙◌, true, some, List, [], ◌∷◌, arith, pos, negsuc, ◌+ℤ◌,
}
use qnx_box.Calls.{Event, acted, called, Outcome, Ends, returned, exited}
use qnx_box.Variables.{choose_mutex, System, Reach, init, IsJoined}
use qnx_box.Variables.Equal.{variables_equal, is_critical}
use qnx_box.Variables.Main.{
  Call, mutex_init, getschedparam, attr_init, attr_setinheritsched, attr_setschedpolicy,
  attr_setschedparam, create, join, mutex_destroy, Action, say_all_done, program, assignment_2,
}
use qnx_box.Variables.Main.Exits.{Ordered, assignment_2-Ends}

-- The calls that are made.
abbrev pub calls : List (Event Call Action) → List Call
calls [] = []
calls (called c ∷ es) = c ∷ calls es
calls (_ ∷ es) = calls es

-- The values in the last line.
abbrev pub values : List (Event Call Action) → List (ℕ × ℕ)
values [] = []
values (acted (say_all_done var1 var2) ∷ es) = (var1, var2) ∷ values es
values (_ ∷ es) = values es

-- What a whole run calls.
abbrev pub all_calls : (sched_priority : ℕ) → List Call
all_calls sched_priority =
    mutex_init
    ∷ getschedparam
    ∷ attr_init
    ∷ attr_setinheritsched
    ∷ attr_setschedpolicy
    ∷ attr_setschedparam (pos sched_priority +ℤ negsuc 1)
    ∷ create 0
    ∷ create 1
    ∷ create 2
    ∷ create 3
    ∷ join 0
    ∷ join 1
    ∷ join 2
    ∷ join 3
    ∷ mutex_destroy
    ∷ []

Ends-calls :
    (ret : Call → ℕ) (sched_priority var1 var2 : ℕ) {o : Outcome Call Action}
    → Ends ret (program true sched_priority var1 var2) o
    → o.status ≡ 0
    → (calls o.events ≡ all_calls sched_priority) × (values o.events ≡ (var1, var2) ∷ [])
Ends-calls ret sched_priority var1 var2 (returned p) s = (refl, refl)
Ends-calls ret sched_priority var1 var2 (exited xs ys c e p n) s = absurd (omega (arith, s))

values_equal :
    {s : System}
    → Reach true 4 init s
    → IsJoined 4 s
    → (s.mem.var1 ≡ s.mem.var3) × (s.mem.var2 ≡ s.mem.var3)
values_equal {s} r joined =
    let (a, b) = (variables_equal r).1 (λ t lt. ap is_critical (joined t lt)) in (a ∙ sym b, sym b)

-- The program with its four threads, with the mutex, whatever the schedule and the results of the calls:
-- the main thread does all of its steps in order, or exits with 1 at the first call that fails, and nothing
-- is done out of order wherever it ends. If the status is 0, its calls are the set-up with the priority
-- lowered by 2, the creation and the join of each of the four threads, and the end of the mutex; and it
-- prints for both variables one and the same number, how often the threads have done their work.
pub assignment_2_prints :
    (ret : Call → ℕ) (argv : List (List ℕ)) (sched_priority : ℕ)
    → choose_mutex argv ≡ some true
    → {s : System} → Reach true 4 init s
    → IsJoined 4 s
    → let o = assignment_2 ret argv sched_priority s.mem.var1 s.mem.var2 in
      Ends ret (program true sched_priority s.mem.var1 s.mem.var2) o
      × Ordered true o.events
      × (o.status ≡ 0
          → (calls o.events ≡ all_calls sched_priority)
            × (values o.events ≡ (s.mem.var3, s.mem.var3) ∷ []))
assignment_2_prints ret argv sched_priority e {s} r joined =
    let (ends, ordered) = assignment_2-Ends ret sched_priority s.mem.var1 s.mem.var2 argv true e in
    let (same1, same2) = values_equal r joined in
    (
      ends,
      ordered,
      λ z.
          let (made, shown) = Ends-calls ret sched_priority s.mem.var1 s.mem.var2 ends z in
          (made, shown ∙ rw (same1, same2) refl),
    )
