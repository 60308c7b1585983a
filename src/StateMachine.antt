-- ===== src/StateMachine.antt =====
-- The four threads of src/17.lab_state_machine.c, which pass a state round under a mutex and a
-- condition variable. The globals are read and written only under the mutex, so a critical section
-- is one step; the test of `running` at the head of a loop is a step of its own, and so is the
-- broadcast, which comes after the unlock. Of the printing only the two reports of the counter are
-- kept. `counter` is an int that grows by one a second at most, and is taken as unbounded.
pub mod Reports
pub mod Waiting
pub mod Shutdown
mod Tests
use qnx_box.Prelude.{
  ℕ, zero, suc, ◌+◌, ◌%◌, ◌<◌, ◌≡◌, ◌≢◌, Bool, true, false, List, [], ◌∷◌, ◌==◌, if◌then◌else◌,
  update,
}

-- Where a thread stands.
pub data Pc : Type 0 where
  top : Pc  -- before `while (running)`
  ready : Pc  -- about to get the mutex and test the state
  asleep : Pc  -- in pthread_cond_wait
  notify : Pc  -- before pthread_cond_broadcast
  finished : Pc  -- returned

-- The globals, the reports that were printed, newest first, as the thread's number with the
-- counter's value, and where the threads stand: thread `t` is the one that waits for state `t`.
pub record Machine : Type 0 where
  pub state : ℕ
  pub counter : ℕ
  pub running : Bool
  pub reports : List (ℕ × ℕ)
  pub pc : ℕ → Pc

-- The critical sections of the four threads, once their state has come.
abbrev pub state_zero : Machine → Machine
state_zero m = record m { state = 1 }

abbrev pub state_one : Machine → Machine
state_one m = record m {
  counter = m.counter + 1;
  state = if (m.counter + 1) % 2 == 0 then 2 else 3;
}

abbrev pub state_two : Machine → Machine
state_two m = record m { reports = (2, m.counter) ∷ m.reports; state = 0 }

abbrev pub state_three : Machine → Machine
state_three m = record m { reports = (3, m.counter) ∷ m.reports; state = 0 }

abbrev pub critical_section : ℕ → Machine → Machine
critical_section zero m = state_zero m
critical_section (suc zero) m = state_one m
critical_section (suc (suc zero)) m = state_two m
critical_section (suc (suc (suc t))) m = state_three m

abbrev pub woken : Pc → Pc
woken asleep = ready
woken p = p

abbrev pub threads : ℕ
threads = 4

pub data Step (m : Machine) : Machine → Type 0 where
  -- `while (running)`
  enter :
      (t : ℕ)
      → t < threads
      → m.pc t ≡ top
      → m.running ≡ true
      → Step m (record m { pc = update m.pc t ready })
  leave :
      (t : ℕ)
      → t < threads
      → m.pc t ≡ top
      → m.running ≡ false
      → Step m (record m { pc = update m.pc t finished })
  -- lock, and `while (state != t)` sends the thread into pthread_cond_wait
  block :
      (t : ℕ)
      → t < threads
      → m.pc t ≡ ready
      → m.state ≢ t
      → Step m (record m { pc = update m.pc t asleep })
  -- lock, the rest of the critical section, and unlock
  fire :
      (t : ℕ)
      → t < threads
      → m.pc t ≡ ready
      → m.state ≡ t
      → Step m (record (critical_section t m) { pc = update m.pc t notify })
  broadcast :
      (t : ℕ)
      → t < threads
      → m.pc t ≡ notify
      → Step m (record m { pc = update (λ u. woken (m.pc u)) t top })
  -- pthread_cond_wait may return without a broadcast
  spurious :
      (t : ℕ) → t < threads → m.pc t ≡ asleep → Step m (record m { pc = update m.pc t ready })
  -- `running = 0` in the main thread
  stop : Step m (record m { running = false })

abbrev pub init : Machine
init = record { state = 0; counter = 0; running = true; reports = []; pc = λ _. top }

pub data Reach (s : Machine) : Machine → Type 0 where
  here : Reach s s
  next : {m n : Machine} → Reach s m → Step m n → Reach s n
