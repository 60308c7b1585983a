-- ===== src/HwHandler/Threads.antt =====
-- The threads of src/15.lab_hw_handler_condvar.c, over the queue as a list of values. What happens
-- between a lock and the next unlock is one step, except that `hardware_handler` tests `running` and
-- falls asleep in two: the main thread and the last signal do not take the mutex. The values that
-- are added and the lengths of the batches are chosen by the environment, and so is where memory for a
-- node of the queue runs out.
pub mod Order
pub mod Wakeups
use qnx_box.Prelude.{ℕ, ◌≡◌, Bool, true, false, List, [], ◌∷◌, ◌++◌}

-- Where `hardware_handler` stands.
pub data Handler : Type 0 where
  handler_top : Handler  -- before `while (running)`
  locking : Handler  -- about to lock and to test the condition, first or after a wake-up
  dozing : Handler  -- the test said to wait; the mutex is still held
  asleep : Handler  -- in pthread_cond_wait
  writing : ℕ → Handler  -- has a value, before write_to_hardware
  fetching : Handler  -- about to lock and to get the next value
  handler_done : Handler

-- Where `data_provider` stands.
pub data Provider : Type 0 where
  provider_top : Provider  -- before `while (running)`
  adding : Provider  -- in the `for` loop, before the next round or its end
  signalling : Provider  -- before pthread_cond_signal in `add_to_queue`
  last_signal : Provider  -- before the pthread_cond_signal behind the loop
  provider_done : Provider

pub record State : Type 0 where
  pub queue : List ℕ
  pub data_ready : Bool
  pub running : Bool
  pub handler : Handler
  pub provider : Provider
  pub added : List ℕ  -- all values put into the queue so far, in order
  pub written : List ℕ  -- all values written to the hardware so far, in order

-- `while ((data = get_data_and_remove_from_queue()) != NULL)`, with the mutex held, up to the unlock.
abbrev pub fetch : List ℕ → State → State
fetch [] s = record s { data_ready = false; handler = handler_top }
fetch (v ∷ vs) s = record s { queue = vs; handler = writing v }

-- pthread_cond_signal
abbrev pub wake : Handler → Handler
wake asleep = locking
wake h = h

pub data Step (s : State) : State → Type 0 where
  handler_enter :
      s.handler ≡ handler_top → s.running ≡ true → Step s (record s { handler = locking })
  handler_leave :
      s.handler ≡ handler_top → s.running ≡ false → Step s (record s { handler = handler_done })
  test_waits :
      s.handler ≡ locking
      → s.data_ready ≡ false
      → s.running ≡ true
      → Step s (record s { handler = dozing })
  test_ready : s.handler ≡ locking → s.data_ready ≡ true → Step s (fetch s.queue s)
  test_stopped : s.handler ≡ locking → s.running ≡ false → Step s (fetch s.queue s)
  sleeps : s.handler ≡ dozing → Step s (record s { handler = asleep })
  spurious : s.handler ≡ asleep → Step s (record s { handler = locking })
  writes :
      {v : ℕ}
      → s.handler ≡ writing v
      → Step s (record s { handler = fetching; written = s.written ++ v ∷ [] })
  fetches : s.handler ≡ fetching → Step s (fetch s.queue s)
  provider_enter :
      s.provider ≡ provider_top → s.running ≡ true → Step s (record s { provider = adding })
  provider_leave :
      s.provider ≡ provider_top → s.running ≡ false → Step s (record s { provider = last_signal })
  -- `add_to_queue` up to the unlock; the handler does not hold the mutex.
  adds :
      (v : ℕ)
      → s.provider ≡ adding
      → (s.handler ≡ dozing → ⊥)
      → Step s (record s {
        queue = s.queue ++ v ∷ [];
        data_ready = true;
        provider = signalling;
        added = s.added ++ v ∷ [];
      })
  -- The same where malloc fails: the value is dropped, and `data_ready` is set all the same.
  drops :
      s.provider ≡ adding
      → (s.handler ≡ dozing → ⊥)
      → Step s (record s { data_ready = true; provider = signalling })
  signals :
      s.provider ≡ signalling → Step s (record s { provider = adding; handler = wake s.handler })
  batch_ends : s.provider ≡ adding → Step s (record s { provider = provider_top })
  signals_last :
      s.provider ≡ last_signal
      → Step s (record s { provider = provider_done; handler = wake s.handler })
  -- `running = 0` in the main thread
  stop : Step s (record s { running = false })

abbrev pub init : State
init = record {
  queue = [];
  data_ready = false;
  running = true;
  handler = handler_top;
  provider = provider_top;
  added = [];
  written = [];
}

pub data Reach (a : State) : State → Type 0 where
  here : Reach a a
  next : {s t : State} → Reach a s → Step s t → Reach a t
