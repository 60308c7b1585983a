-- ===== src/ProcessTimer.antt =====
-- src/28.lab_process_timer.c: the parent process, which on each pulse of its timer ends its child and
-- forks another, and the children that there are. fork gives the number of the child in the parent;
-- the child prints its number and sleeps until it is ended. SIGTERM ends a child, and nothing else does.
pub mod Children
mod Tests
use qnx_box.Prelude.{
  ℕ, suc, ◌≡◌, Bool, true, false, Option, none, some, List, [], ◌∷◌, ◌==◌, if◌then◌else◌, update,
}

-- A process: not there, a child that prints the number, or ended and not waited for.
pub data Process : Type 0 where
  absent : Process
  running : (printed : ℕ) → Process
  zombie : Process

-- The globals of the parent, and the processes by their numbers.
pub record State : Type 0 where
  pub process_count : ℕ
  pub process_pid : ℕ
  pub process : ℕ → Process

-- What MsgReceive returned, and what fork then returns: `none` is -1.
pub data Event : Type 0 where
  receive_failed : Event
  timer_pulse : (forked : Option ℕ) → Event
  other_pulse : Event
  message : (rcvid : ℕ) → Event

-- kill(pid, SIGTERM)
abbrev pub terminated : Process → Process
terminated (running n) = zombie
terminated p = p

abbrev pub kill : (ℕ → Process) → ℕ → ℕ → Process
kill process pid = update process pid (terminated (process pid))

-- fork in the parent; the child has a copy of `process_count`.
abbrev pub forked : (ℕ → Process) → ℕ → ℕ → ℕ → Process
forked process pid count = update process pid (running count)

-- The first child; `none` is exit(EXIT_FAILURE).
unfoldable pub first : (ℕ → Process) → Option ℕ → Option State
first process none = none
first process (some pid) =
    some (record { process_count = 0; process_pid = pid; process = forked process pid 0 })

-- The set-up behind the first fork: whether ChannelCreate, ConnectAttach, timer_create and timer_settime
-- succeed; where one fails the parent exits.
pub record Os : Type 0 where
  pub channel_ok : Bool
  pub attach_ok : Bool
  pub timer_ok : Bool
  pub settime_ok : Bool

abbrev pub create_channel : Os → Bool
create_channel os = if os.channel_ok then os.attach_ok else false

abbrev pub create_timer : Os → Bool
create_timer os = if os.timer_ok then os.settime_ok else false

-- A round of the parent's loop: whether it goes on, and the state.
unfoldable pub round : State → Event → Bool × State
round s receive_failed = (true, s)
round s (timer_pulse none) = (
  false,
  record s { process_count = suc s.process_count; process = kill s.process s.process_pid },
)
round s (timer_pulse (some pid)) = (
  true,
  record {
    process_count = suc s.process_count;
    process_pid = pid;
    process = forked (kill s.process s.process_pid) pid (suc s.process_count);
  },
)
round s other_pulse = (true, s)
round s (message rcvid) = (true, s)

-- The loop over the events that arrive, up to the exit or the end of the events.
unfoldable pub loop : State → List Event → Bool × State
loop s [] = (true, s)
loop s (e ∷ es) =
    let (goes_on, t) = round s e in let rest = loop t es in if goes_on then rest else (false, t)

-- The whole: `none` where there is no parent that waits for events. Where the set-up fails the parent
-- exits and its first child stays.
unfoldable pub process_timer : (ℕ → Process) → Option ℕ → Os → List Event → Option (Bool × State)
unfolding first loop
process_timer process pid os es = elim (first process pid) [
  | none ↦ none
  | some s ↦
      let rest = loop s es in
      if create_channel os
      then if create_timer os then some rest else some (false, s)
      else some (false, s)
]
