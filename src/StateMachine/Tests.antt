-- ===== src/StateMachine/Tests.antt =====
-- States of src/17.lab_state_machine.c by evaluation, and the theorems at such states.
use qnx_box.Prelude.{◌≡◌, refl, false, [], ◌∷◌, arith, update}
use qnx_box.StateMachine.{
  asleep, notify, Machine, Step, enter, leave, block, fire, broadcast, init, Reach, here, next,
}
use qnx_box.StateMachine.Reports.{expected, reported, reports_lem}
use qnx_box.StateMachine.Waiting.{IsOwn, running_progress}

-- Once round: thread 0, thread 1, thread 3.
abbrev first_report : (m : Machine) × Reach init m
first_report = (
  _,
  next
      (next
        (next
          (next
            (next
              (next (next here (enter 0 (omega arith) refl refl)) (fire 0 (omega arith) refl refl))
              (enter 1 (omega arith) refl refl))
            (fire 1 (omega arith) refl refl))
          (enter 3 (omega arith) refl refl))
        (fire 3 (omega arith) refl refl))
      (broadcast 3 (omega arith) refl),
)

first_report_odd : first_report.0.reports ≡ (3, 1) ∷ []
first_report_odd = refl

reports_lem_example : first_report.0.reports ≡ expected (reported first_report.0)
reports_lem_example = reports_lem first_report.1

-- Thread 1 sleeps, thread 0 has set its state and has not broadcast yet.
abbrev handing_over : (m : Machine) × Reach init m
handing_over = (
  _,
  next
      (next
        (next (next here (enter 1 (omega arith) refl refl))
          (block 1 (omega arith) refl (omega arith)))
        (enter 0 (omega arith) refl refl))
      (fire 0 (omega arith) refl refl),
)

running_progress_example : (n : Machine) × (st : Step handing_over.0 n) × IsOwn st
running_progress_example = running_progress handing_over.1 refl

-- `running` was cleared while thread 0 slept for its second, and the others wait.
abbrev stopped : Machine
stopped = record {
  state = 1;
  counter = 0;
  running = false;
  reports = [];
  pc = update (λ _. asleep) 0 notify;
}

-- Thread 0 wakes the others and returns; thread 1 passes on to thread 3.
abbrev later : (n : Machine) × Reach stopped n
later = (
  _,
  next
      (next (next (next here (broadcast 0 (omega arith) refl)) (leave 0 (omega arith) refl refl))
        (fire 1 (omega arith) refl refl))
      (fire 3 (omega arith) refl refl),
)
