-- ===== src/Events.antt =====
-- The event server of src/22.lab_events_server.c. The message loop and `notify_thread` share a few
-- globals under a mutex; what a thread does under it is one operation, and so is what the message loop
-- does behind it, between two calls of MsgReceive. `notify_count` is an int that grows by one a second,
-- and is taken as unbounded. A failed call that ends the process ends the sequence of operations.
pub mod Answers
pub mod Client
pub mod Counting
pub mod Session
mod Tests
use qnx_box.Prelude.{
  ℕ, suc, ◌≡◌, Bool, true, false, Option, none, some, List, [], ◌∷◌, ◌++◌, ◌==◌, if◌then◌else◌,
}

-- What the server reads and writes of `struct sigevent`, and the connection that it belongs to.
pub record Sigevent : Type 0 where
  pub coid : ℕ
  pub is_updateable : Bool
  pub value : ℕ

-- The globals; `pending` is the client that the message loop has yet to reply to.
pub record State : Type 0 where
  pub save_rcvid : ℕ
  pub notify_count : ℕ
  pub save_scoid : ℕ
  pub save_event : Sigevent
  pub pending : Option ℕ

pub data Call : Type 0 where
  detach : (scoid : ℕ) → Call  -- ConnectDetach
  reply : (rcvid : ℕ) → Call  -- MsgReply with EOK
  error : (rcvid : ℕ) → Call  -- MsgError
  unblock_error : (rcvid : ℕ) → Call  -- MsgError for an unblock pulse
  deliver : (rcvid : ℕ) → Sigevent → Call  -- MsgDeliverEvent
  deliver_failed : (rcvid : ℕ) → Sigevent → Call  -- MsgDeliverEvent that returns -1, not for EFAULT

pub data Op : Type 0 where
  -- What MsgReceive returned: pulses with rcvid 0, and messages. MsgVerifyEvent accepts the event of
  -- a request or does not.
  disconnect : (scoid : ℕ) → Op
  unblock : (rcvid : ℕ) → Op
  other_pulse : Op
  request : (rcvid scoid : ℕ) → Sigevent → (is_verified : Bool) → Op
  other_message : (rcvid : ℕ) → Op
  -- MsgReply behind the critical section of a request
  answer : Op
  -- one round of `notify_thread`, with what becomes of MsgDeliverEvent
  notify : (is_delivered : Bool) → Op

-- _PULSE_CODE_DISCONNECT
abbrev pub forget : State → ℕ → State
forget s scoid =
    if s.save_scoid == scoid
    then record s { save_scoid = 0; save_rcvid = 0; notify_count = 0 }
    else s

-- REQUEST_NOTIFICATIONS, up to the unlock
abbrev pub save : State → ℕ → ℕ → Sigevent → Bool → State × List Call
save s rcvid scoid event false = (s, error rcvid ∷ [])
save s rcvid scoid event true = (
  record s { save_rcvid = rcvid; save_event = event; save_scoid = scoid; pending = some rcvid },
  [],
)

-- What is delivered: an updateable event carries the count.
abbrev pub updated : Sigevent → ℕ → Sigevent
updated e count = if e.is_updateable then record e { value = count } else e

abbrev pub counted : Sigevent → ℕ → ℕ
counted e count = if e.is_updateable then suc count else count

-- MsgDeliverEvent in `notify_thread`, which goes on where it fails, unless with EFAULT.
abbrev pub delivery : Bool → ℕ → Sigevent → Call
delivery true rcvid e = deliver rcvid e
delivery false rcvid e = deliver_failed rcvid e

-- The critical section of `notify_thread`.
abbrev pub notify_round : Bool → State → State × List Call
notify_round is_delivered s = if s.save_rcvid == 0 then (s, []) else (
  record s {
    save_event = updated s.save_event s.notify_count;
    notify_count = counted s.save_event s.notify_count;
  },
  delivery is_delivered s.save_rcvid (updated s.save_event s.notify_count) ∷ [],
)

-- The message loop receives only where it has replied.
abbrev pub when_idle : Option ℕ → State × List Call → Option (State × List Call)
when_idle none r = some r
when_idle (some _) r = none

abbrev pub finish : State → Option ℕ → Option (State × List Call)
finish s none = none
finish s (some rcvid) = some (record s { pending = none }, reply rcvid ∷ [])

-- One operation: the new state and the calls that it makes; `none` where it cannot come.
unfoldable pub step : Op → State → Option (State × List Call)
step (disconnect scoid) s = when_idle s.pending (forget s scoid, detach scoid ∷ [])
step (unblock rcvid) s = when_idle s.pending (s, unblock_error rcvid ∷ [])
step other_pulse s = when_idle s.pending (s, [])
step (request rcvid scoid event v) s = when_idle s.pending (save s rcvid scoid event v)
step (other_message rcvid) s = when_idle s.pending (s, error rcvid ∷ [])
step answer s = finish s s.pending
step (notify is_delivered) s = some (notify_round is_delivered s)

-- The globals before the loop; `save_event` is zero.
abbrev pub init : State
init = record {
  save_rcvid = 0;
  notify_count = 0;
  save_scoid = 0;
  save_event = record { coid = 0; is_updateable = false; value = 0 };
  pending = none;
}

-- A sequence of operations of the two threads, and all calls that it makes.
pub data Run : List Op → State → List Call → State → Type 0 where
  stop : {s : State} → Run [] s [] s
  next :
      {op : Op} {ops : List Op} {s t u : State} {here rest : List Call}
      → step op s ≡ some (t, here)
      → Run ops t rest u
      → Run (op ∷ ops) s (here ++ rest) u
