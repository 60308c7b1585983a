-- ===== src/ProcessTimer/Tests.antt =====
-- src/28.lab_process_timer.c at concrete events, and the theorem at them.
use qnx_box.Prelude.{◌≡◌, refl, true, false, ◌&&◌, some, List, [], ◌∷◌, arith}
use qnx_box.ProcessTimer.{
  zombie, running, State, Event, timer_pulse, other_pulse, message, Os, create_channel,
  create_timer, round, loop, process_timer,
}
use qnx_box.ProcessTimer.Children.{AreFresh, Alone, no_children, with_child, process_timer_lem}

abbrev all_ok : Os
all_ok = record { channel_ok = true; attach_ok = true; timer_ok = true; settime_ok = true }

abbrev two_pulses : List Event
two_pulses = timer_pulse (some 5) ∷ message 3 ∷ timer_pulse (some 8) ∷ other_pulse ∷ []

two_pulses-AreFresh : AreFresh 10 (with_child 4) two_pulses
unfolding round
two_pulses-AreFresh = ((omega arith, refl), (tt, ((omega arith, refl), (tt, tt))))

abbrev at_end : State
at_end = (loop (with_child 4) two_pulses).1

third_runs :
    (at_end.process 8 ≡ running 2) × (at_end.process 4 ≡ zombie) × (at_end.process 5 ≡ zombie)
unfolding loop round
third_runs = (refl, refl, refl)

process_timer_lem_example :
    ((s : State)
      → process_timer no_children (some 4) all_ok two_pulses ≡ some (true, s)
      → Alone 10 s × (s.process_count ≡ 2))
    × (create_channel all_ok && create_timer all_ok ≡ false
        → process_timer no_children (some 4) all_ok two_pulses ≡ some (false, with_child 4))
process_timer_lem_example =
    process_timer_lem 10 4 all_ok two_pulses (omega arith) two_pulses-AreFresh
