-- ===== src/Events/Tests.antt =====
-- The theorems on the event server of src/22.lab_events_server.c at a concrete sequence of operations.
use qnx_box.Prelude.{ℕ, ◌≡◌, refl, true, false, none, List, [], ◌∷◌, ◌++◌}
use qnx_box.Events.{
  Sigevent, State, Call, detach, reply, error, deliver, Op, disconnect, request, other_message,
  answer, notify, step, init, Run, stop, next,
}
use qnx_box.Events.Answers.{received, answered, all_answered}
use qnx_box.Events.Client.{msg_ev, my_pulse_code, loop}
use qnx_box.Events.Session.{arriving, all_got, numbers_shown}
use qnx_box.Events.Counting.{Counts}

abbrev pulse_event : Sigevent
pulse_event = record { coid = 9; is_updateable = true; value = 0 }

-- Client 5 registers and gets two pulses; client 6 registers and gets one; a strange message comes.
abbrev ops : List Op
ops =
    request 5 1 pulse_event true
    ∷ answer
    ∷ notify true
    ∷ notify true
    ∷ request 6 2 pulse_event true
    ∷ answer
    ∷ notify true
    ∷ other_message 7
    ∷ []

abbrev calls : List Call
calls =
    reply 5
    ∷ deliver 5 (record { coid = 9; is_updateable = true; value = 0 })
    ∷ deliver 5 (record { coid = 9; is_updateable = true; value = 1 })
    ∷ reply 6
    ∷ deliver 6 (record { coid = 9; is_updateable = true; value = 2 })
    ∷ error 7
    ∷ []

abbrev registered : State
registered = record {
  save_rcvid = 6;
  notify_count = 3;
  save_scoid = 2;
  save_event = record { coid = 9; is_updateable = true; value = 2 };
  pending = none;
}

two_clients : Run ops init calls registered
unfolding step
two_clients = next {here = []} refl (
    next {here = _ ∷ []} refl (
      next {here = _ ∷ []} refl (
        next {here = _ ∷ []} refl (
          next {here = []} refl (
            next {here = _ ∷ []} refl
              (next {here = _ ∷ []} refl (next {here = _ ∷ []} refl stop)))))))

all_answered_example : received ops ≡ answered calls ++ []
all_answered_example = all_answered two_clients

abbrev left : State
left = record registered { save_rcvid = 0; notify_count = 0; save_scoid = 0 }

leaves : Run (disconnect registered.save_scoid ∷ notify true ∷ []) registered (detach 2 ∷ []) left
unfolding step
leaves = next {here = _ ∷ []} refl (next {here = []} refl stop)

-- One client, and a request of another that is refused.
abbrev one_client : List Op
one_client =
    request 5 1 (msg_ev 9) true
    ∷ answer
    ∷ notify true
    ∷ request 6 2 (msg_ev 4) false
    ∷ notify true
    ∷ []

abbrev one_client_calls : List Call
one_client_calls =
    reply 5
    ∷ deliver 5 (record { coid = 9; is_updateable = true; value = 0 })
    ∷ error 6
    ∷ deliver 5 (record { coid = 9; is_updateable = true; value = 1 })
    ∷ []

abbrev two_numbers : State
two_numbers = record {
  save_rcvid = 5;
  notify_count = 2;
  save_scoid = 1;
  save_event = record { coid = 9; is_updateable = true; value = 1 };
  pending = none;
}

one_client_run : Run one_client init one_client_calls two_numbers
unfolding step
one_client_run = next {here = []} refl (
    next {here = _ ∷ []} refl
      (next {here = _ ∷ []} refl (next {here = _ ∷ []} refl (next {here = _ ∷ []} refl stop))))

numbers_shown_example :
    (vs : List ℕ) × (loop 0 (arriving (my_pulse_code 0) 9 one_client_calls) ≡ all_got vs)
    × Counts 0 vs 2
numbers_shown_example = numbers_shown 0 9 5 1 one_client_run (tt, (refl, (refl, (refl, tt))))
