-- ===== src/Interrupt.antt =====
-- `qnx_lab_interrupt_handler` of src/25.lab_interrup_handler.c: both ways to wait for an interrupt. What
-- the kernel answers is the input; the model stops where it ends. `count` is an int, kept as its 32-bit
-- pattern.
pub mod Modes
mod Tests
use qnx_box.Prelude.{
  ℕ, ◌+◌, ◌%◌, ◌^◌, Bool, true, false, Option, none, some, List, [], ◌∷◌, if◌then◌else◌,
}
use qnx_box.CString.{codes, choice}

-- What InterruptWait and, where it succeeds, InterruptUnmask return.
pub data Wait : Type 0 where
  wait_fails : Wait
  woken : (unmask_ok : Bool) → Wait

-- What MsgReceive gives. InterruptUnmask behind a pulse is not tested.
pub data Arrival : Type 0 where
  receive_fails : Arrival
  pulse : Arrival
  message : (rcvid : ℕ) → Arrival

pub data Line : Type 0 where
  usage : Line
  starting_thread : Line
  starting_event : Line
  attach_failed : Line
  wait_failed : Line
  unmask_failed : Line
  got_event : (count : ℕ) → Line

-- The lines and the status of the exit; `none`: it waits for more.
pub record Run : Type 0 where
  pub lines : List Line
  pub status : Option ℕ

abbrev pub print : Line → Run → Run
print l r = record r { lines = l ∷ r.lines }

abbrev pub increment : ℕ → ℕ
increment count = (count + 1) % 2 ^ 32

-- The loop of `interrupt_thread`.
unfoldable pub thread_loop : ℕ → List Wait → Run
thread_loop count [] = record { lines = []; status = none }
thread_loop count (wait_fails ∷ ws) = record { lines = wait_failed ∷ []; status = some 1 }
thread_loop count (woken unmask_ok ∷ ws) =
    let rest = print (got_event count) (thread_loop (increment count) ws) in
    if unmask_ok then rest else print unmask_failed rest

abbrev pub interrupt_thread : Bool → List Wait → Run
interrupt_thread attach_ok ws =
    print starting_thread (
      if attach_ok
      then thread_loop 0 ws
      else record { lines = attach_failed ∷ []; status = some 1 })

-- The loop of `interrupt_event`.
unfoldable pub event_loop : ℕ → List Arrival → Run
event_loop count [] = record { lines = []; status = none }
event_loop count (receive_fails ∷ es) = event_loop count es
event_loop count (message rcvid ∷ es) = event_loop count es
event_loop count (pulse ∷ es) = print (got_event count) (event_loop (increment count) es)

-- ChannelCreate, ConnectAttach and InterruptAttachEvent are not tested.
abbrev pub interrupt_event : List Arrival → Run
interrupt_event es = print starting_event (event_loop 0 es)

abbrev pub by_mode : Option Bool → Bool → List Wait → List Arrival → Run
by_mode (some true) attach_ok ws es = interrupt_thread attach_ok ws
by_mode (some false) attach_ok ws es = interrupt_event es
by_mode none attach_ok ws es = record { lines = []; status = some 0 }

-- The arguments are C strings. The function returns the status to `main`.
unfoldable pub interrupt_handler : List (List ℕ) → Bool → List Wait → List Arrival → Run
interrupt_handler (prog ∷ program ∷ mode ∷ []) attach_ok ws es =
    by_mode (choice (codes "thread") (codes "event") mode) attach_ok ws es
interrupt_handler _ attach_ok ws es = record { lines = usage ∷ []; status = some 1 }
