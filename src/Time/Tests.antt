-- ===== src/Time/Tests.antt =====
-- src/29.lab_time.c at concrete inputs, and the theorem at such an input.
use qnx_box.Prelude.{◌≡◌, refl, true, false, List, [], ◌∷◌, ◌++◌, arith, pos}
use qnx_box.CString.{codes, zeros, length-zeros}
use qnx_box.Time.{Os, shown, settime, loop}
use qnx_box.Time.AtEnd.{end_repeats, all_shown}
use qnx_box.Time.Commands.{Typed, get, set, answers, all_bytes, commands_done}

abbrev good : Os
good = record {
  real_ok = true;
  monotonic_ok = true;
  set_ok = true;
  line = zeros 100;
  tv_sec = pos 7;
  tv_nsec = pos 8;
}

abbrev two : List Typed
two = set (codes "50 3") ∷ get ∷ []

what_is_done : answers (good ∷ good ∷ []) two ≡ settime (pos 50) (pos 3) true ∷ shown true true ∷ []
what_is_done = refl

commands_done_example :
    loop
      (record { command = zeros 100; input = all_bytes two ++ (codes "exit\n" ++ codes "get\n") })
      (good ∷ good ∷ good ∷ [])
    ≡ record { outputs = answers (good ∷ good ∷ []) two; is_left = true }
commands_done_example =
    commands_done (good ∷ good ∷ []) good [] two (codes "get\n") (zeros 100) refl
      (length-zeros 100, (length-zeros 100, tt)) (ground arith, (tt, tt)) (length-zeros 100)

get_for_ever :
    loop (record { command = codes "get\n" ++ zeros 96; input = [] }) (good ∷ good ∷ [])
    ≡ record { outputs = all_shown (good ∷ good ∷ []); is_left = false }
get_for_ever = end_repeats (codes "get\n" ++ zeros 96) (good ∷ good ∷ []) refl
