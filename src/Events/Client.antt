-- ===== src/Events/Client.antt =====
-- src/22.lab_events_client.c: the set-up of the event that it registers with the server, and its loop. The
-- number `_PULSE_CODE_MINAVAIL` of the system header is the parameter `minavail`.
use qnx_box.Prelude.{
  ℕ, zero, suc, ◌+◌, Bool, true, false, Option, none, some, List, [], ◌∷◌, ◌++◌, ◌==◌,
  if◌then◌else◌,
}
use qnx_box.Events.{Sigevent}

-- `server_locate`: how often name_open fails before it succeeds. The source has no bound on the tries;
-- here there are `n`.
unfoldable pub server_locate : (ℕ → Bool) → ℕ → ℕ → Option ℕ
server_locate opens zero tries = none
server_locate opens (suc n) tries =
    let later = server_locate opens n (suc tries) in if opens tries then some tries else later

-- Whether the calls of the set-up succeed; MsgSend does if the server replies.
pub record Os : Type 0 where
  pub channel_ok : Bool
  pub attach_ok : Bool
  pub register_ok : Bool
  pub send_ok : Bool

-- The event in the message: SIGEV_PULSE_INIT and SIGEV_MAKE_UPDATEABLE.
abbrev pub msg_ev : ℕ → Sigevent
msg_ev self_coid = record { coid = self_coid; is_updateable = true; value = 0 }

-- The event that is registered when the loop begins; `none` is exit(EXIT_FAILURE).
abbrev pub prepare : Os → ℕ → Option Sigevent
prepare os self_coid =
    if os.channel_ok
    then if os.attach_ok
      then if os.register_ok then if os.send_ok then some (msg_ev self_coid) else none else none
      else none
    else none

-- What MsgReceive hands out, and the outcome of MsgError for a message.
pub data Received : Type 0 where
  receive_failed : Received
  pulse : (code value : ℕ) → Received
  message : (rcvid type : ℕ) (error_ok : Bool) → Received

-- What is printed, and the answer to a message.
pub data Output : Type 0 where
  got : (value : ℕ) → Output
  unexpected_pulse : (code : ℕ) → Output
  unexpected_message : (type : ℕ) → Output
  error : (rcvid : ℕ) → Output  -- MsgError with ENOSYS

module _ (minavail : ℕ) where
  abbrev pub my_pulse_code : ℕ
  my_pulse_code = minavail + 3

  -- A round of the loop: whether it goes on, and what it does.
  unfoldable pub round : Received → Bool × List Output
  round receive_failed = (false, [])
  round (pulse code value) =
      if code == my_pulse_code then (true, got value ∷ []) else (true, unexpected_pulse code ∷ [])
  round (message rcvid type error_ok) = (error_ok, unexpected_message type ∷ error rcvid ∷ [])

  -- The loop, up to the exit or the end of what arrives.
  unfoldable pub loop : List Received → List Output
  loop [] = []
  loop (r ∷ rs) =
      let (goes_on, out) = round r in let rest = loop rs in if goes_on then out ++ rest else out
