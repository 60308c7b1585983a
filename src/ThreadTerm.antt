-- ===== src/ThreadTerm.antt =====
-- The threads of src/08.lab_thread_term.c. A step is a printed line or a call; between two steps the
-- threads may change turns. The calls are as POSIX documents them: a cancelled thread ends at a
-- cancellation point (the lines it prints, `sleep` and `pthread_testcancel` are such, and behind the last
-- it does not go on), a join waits for the end of the thread, and SIGKILL ends the whole process at some
-- time after it was sent.
pub mod Lines
pub mod Order
mod Tests
use qnx_box.Prelude.{ℕ, ◌≡◌, ◌≢◌, Bool, true, false, List, [], ◌∷◌, ◌++◌}

-- The three threads.
pub data Worker : Type 0 where
  for_cancel : Worker
  for_exit : Worker
  for_kill : Worker

pub data Line : Type 0 where
  starting : Worker → Line
  failed : Worker → Line
  created : Worker → Line
  cancelling : Line
  joining : Line
  killing : Line
  completed : Line
  cancel_started : Line
  cancel_running : Line
  exit_started : Line
  exit_calling : Line
  kill_started : Line
  kill_waiting : Line

-- Where `qnx_lab_thread_term` stands.
pub data Main : Type 0 where
  at_start : Worker → Main  -- before the line, then before pthread_create, then before the next line
  at_create : Worker → Main
  at_created : Worker → Main
  in_sleep : Main
  at_cancel : Main
  in_join_cancel : Main
  at_joining : Main
  in_join_exit : Main
  at_killing : Main
  at_kill : Main
  in_last_sleep : Main
  at_completed : Main
  exited : (status : ℕ) → Main
  killed : Main

-- Where `thread_func_cancel` stands.
pub data Cancel : Type 0 where
  cancel_absent : Cancel
  cancel_start : Cancel
  cancel_top : Cancel
  cancel_sleep : Cancel
  cancel_test : Cancel
  cancel_ended : Cancel

-- Where `thread_func_exit` stands.
pub data Exit : Type 0 where
  exit_absent : Exit
  exit_start : Exit
  exit_sleep : Exit
  exit_awake : Exit
  exit_call : Exit
  exit_ended : Exit

-- Where `thread_func_kill` stands.
pub data Kill : Type 0 where
  kill_absent : Kill
  kill_start : Kill
  kill_top : Kill
  kill_sleep : Kill

pub record State : Type 0 where
  pub main : Main
  pub cancel : Cancel
  pub exit : Exit
  pub kill : Kill
  pub requested : Bool  -- pthread_cancel has been called
  pub doomed : Bool  -- SIGKILL has been sent
  pub out : List Line

-- The process has not ended.
abbrev pub is_alive : Main → Bool
is_alive (exited status) = false
is_alive killed = false
is_alive _ = true

abbrev pub after_created : Worker → Main
after_created for_cancel = at_start for_exit
after_created for_exit = at_start for_kill
after_created for_kill = in_sleep

-- pthread_create
abbrev pub create : Worker → State → State
create for_cancel s = record s { main = at_created for_cancel; cancel = cancel_start }
create for_exit s = record s { main = at_created for_exit; exit = exit_start }
create for_kill s = record s { main = at_created for_kill; kill = kill_start }

pub data MainStep (s : State) : State → Type 0 where
  says_starting :
      {w : Worker}
      → s.main ≡ at_start w
      → MainStep s (record s { main = at_create w; out = s.out ++ starting w ∷ [] })
  create_fails :
      {w : Worker}
      → s.main ≡ at_create w
      → MainStep s (record s { main = exited 1; out = s.out ++ failed w ∷ [] })
  creates : {w : Worker} → s.main ≡ at_create w → MainStep s (create w s)
  says_created :
      {w : Worker}
      → s.main ≡ at_created w
      → MainStep s (record s { main = after_created w; out = s.out ++ created w ∷ [] })
  wakes : s.main ≡ in_sleep → MainStep s (record s { main = at_cancel })
  cancels :
      s.main ≡ at_cancel
      → MainStep s
          (record s { main = in_join_cancel; requested = true; out = s.out ++ cancelling ∷ [] })
  joins_cancel :
      s.main ≡ in_join_cancel
      → s.cancel ≡ cancel_ended
      → MainStep s (record s { main = at_joining })
  says_joining :
      s.main ≡ at_joining
      → MainStep s (record s { main = in_join_exit; out = s.out ++ joining ∷ [] })
  joins_exit :
      s.main ≡ in_join_exit → s.exit ≡ exit_ended → MainStep s (record s { main = at_killing })
  says_killing :
      s.main ≡ at_killing → MainStep s (record s { main = at_kill; out = s.out ++ killing ∷ [] })
  kills : s.main ≡ at_kill → MainStep s (record s { main = in_last_sleep; doomed = true })
  kill_fails : s.main ≡ at_kill → MainStep s (record s { main = in_last_sleep })
  dies : s.doomed ≡ true → is_alive s.main ≡ true → MainStep s (record s { main = killed })
  wakes_last : s.main ≡ in_last_sleep → MainStep s (record s { main = at_completed })
  says_completed :
      s.main ≡ at_completed
      → MainStep s (record s { main = exited 0; out = s.out ++ completed ∷ [] })

pub data WorkerStep (s : State) : State → Type 0 where
  cancel_starts :
      s.cancel ≡ cancel_start
      → WorkerStep s (record s { cancel = cancel_top; out = s.out ++ cancel_started ∷ [] })
  cancel_runs :
      s.cancel ≡ cancel_top
      → WorkerStep s (record s { cancel = cancel_sleep; out = s.out ++ cancel_running ∷ [] })
  cancel_wakes : s.cancel ≡ cancel_sleep → WorkerStep s (record s { cancel = cancel_test })
  cancel_passes :
      s.cancel ≡ cancel_test → s.requested ≡ false → WorkerStep s (record s { cancel = cancel_top })
  cancelled :
      s.cancel ≢ cancel_absent
      → s.requested ≡ true
      → WorkerStep s (record s { cancel = cancel_ended })
  exit_starts :
      s.exit ≡ exit_start
      → WorkerStep s (record s { exit = exit_sleep; out = s.out ++ exit_started ∷ [] })
  exit_wakes : s.exit ≡ exit_sleep → WorkerStep s (record s { exit = exit_awake })
  exit_calls :
      s.exit ≡ exit_awake
      → WorkerStep s (record s { exit = exit_call; out = s.out ++ exit_calling ∷ [] })
  exit_ends : s.exit ≡ exit_call → WorkerStep s (record s { exit = exit_ended })
  kill_starts :
      s.kill ≡ kill_start
      → WorkerStep s (record s { kill = kill_top; out = s.out ++ kill_started ∷ [] })
  kill_runs :
      s.kill ≡ kill_top
      → WorkerStep s (record s { kill = kill_sleep; out = s.out ++ kill_waiting ∷ [] })
  kill_wakes : s.kill ≡ kill_sleep → WorkerStep s (record s { kill = kill_top })

-- A thread runs only while the process is there.
pub data Step (s : State) : State → Type 0 where
  by_main : {t : State} → MainStep s t → Step s t
  by_worker : {t : State} → is_alive s.main ≡ true → WorkerStep s t → Step s t

abbrev pub init : State
init = record {
  main = at_start for_cancel;
  cancel = cancel_absent;
  exit = exit_absent;
  kill = kill_absent;
  requested = false;
  doomed = false;
  out = [];
}

pub data Reach (a : State) : State → Type 0 where
  here : Reach a a
  next : {s t : State} → Reach a s → Step s t → Reach a t
