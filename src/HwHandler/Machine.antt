-- ===== src/HwHandler/Machine.antt =====
-- The threads of src/15.lab_hw_handler_condvar.c over the queue functions and the heap that they work
-- on. The steps are those of `Threads`, with the code in place of the list. malloc gives
-- addresses that are not in use, or fails: where it fails for a node, the value is dropped; where it
-- fails for the `data` of a value that is taken, the process crashes, and there is no step.
pub mod Refinement
use qnx_box.Prelude.{ℕ, ◌≤◌, ◌≡◌, ◌≢◌, Bool, true, false, Option, none, some, List, [], ◌∷◌, ◌++◌}
use qnx_box.HwHandler.Heap.{Ptr, null, Result, ok}
use qnx_box.HwHandler.Queue.{Globals, add_to_queue, Removed, get_data_and_remove_from_queue}
use qnx_box.HwHandler.Threads.{
  Handler, handler_top, locking, dozing, asleep, writing, fetching, handler_done, Provider,
  provider_top, adding, signalling, last_signal, provider_done, wake,
}

-- The code returns the result: with all fuel from some amount on.
abbrev pub Returns : {A : Type 0} → (ℕ → Result A) → A → Type 0
Returns code a = (enough : ℕ) × ((k : ℕ) → enough ≤ k → code k ≡ ok a)

-- The globals and the threads, with the values put into the queue and written so far.
pub record Machine : Type 0 where
  pub globals : Globals
  pub running : Bool
  pub handler : Handler
  pub provider : Provider
  pub added : List ℕ
  pub written : List ℕ

-- Behind a call of `get_data_and_remove_from_queue`, up to the unlock.
abbrev pub after_get : Machine → Globals → Option ℕ → Machine
after_get m g none = record m { globals = record g { data_ready = false }; handler = handler_top }
after_get m g (some v) = record m { globals = g; handler = writing v }

-- The handler gets the next value; `box` is the address that malloc gives where there is one.
pub record Gets (m : Machine) (m' : Machine) : Type 0 where
  pub box : Ptr
  pub allocated : box ≢ null
  pub removed : Removed
  pub returns : Returns (λ k. get_data_and_remove_from_queue k box m.globals) removed
  pub result : m' ≡ after_get m removed.globals removed.value

pub data Step (m : Machine) : Machine → Type 0 where
  handler_enter :
      m.handler ≡ handler_top → m.running ≡ true → Step m (record m { handler = locking })
  handler_leave :
      m.handler ≡ handler_top → m.running ≡ false → Step m (record m { handler = handler_done })
  test_waits :
      m.handler ≡ locking
      → m.globals.data_ready ≡ false
      → m.running ≡ true
      → Step m (record m { handler = dozing })
  test_ready :
      {m' : Machine} → m.handler ≡ locking → m.globals.data_ready ≡ true → Gets m m' → Step m m'
  test_stopped : {m' : Machine} → m.handler ≡ locking → m.running ≡ false → Gets m m' → Step m m'
  sleeps : m.handler ≡ dozing → Step m (record m { handler = asleep })
  spurious : m.handler ≡ asleep → Step m (record m { handler = locking })
  writes :
      {v : ℕ}
      → m.handler ≡ writing v
      → Step m (record m { handler = fetching; written = m.written ++ v ∷ [] })
  fetches : {m' : Machine} → m.handler ≡ fetching → Gets m m' → Step m m'
  provider_enter :
      m.provider ≡ provider_top → m.running ≡ true → Step m (record m { provider = adding })
  provider_leave :
      m.provider ≡ provider_top → m.running ≡ false → Step m (record m { provider = last_signal })
  adds :
      (v : ℕ) (new_node : Ptr) {g : Globals}
      → m.provider ≡ adding
      → (m.handler ≡ dozing → ⊥)
      → new_node ≢ null
      → m.globals.heap new_node ≡ none
      → Returns (λ k. add_to_queue k new_node v m.globals) g
      → Step m (record m { globals = g; provider = signalling; added = m.added ++ v ∷ [] })
  -- malloc fails in `add_element_to_queue`.
  drops :
      (v : ℕ) {g : Globals}
      → m.provider ≡ adding
      → (m.handler ≡ dozing → ⊥)
      → Returns (λ k. add_to_queue k null v m.globals) g
      → Step m (record m { globals = g; provider = signalling })
  signals :
      m.provider ≡ signalling → Step m (record m { provider = adding; handler = wake m.handler })
  batch_ends : m.provider ≡ adding → Step m (record m { provider = provider_top })
  signals_last :
      m.provider ≡ last_signal
      → Step m (record m { provider = provider_done; handler = wake m.handler })
  stop : Step m (record m { running = false })

abbrev pub init : Machine
init = record {
  globals = record { heap = λ p. none; queue = null; q_n_items = 0; data_ready = false };
  running = true;
  handler = handler_top;
  provider = provider_top;
  added = [];
  written = [];
}

pub data Reach (a : Machine) : Machine → Type 0 where
  here : Reach a a
  next : {m m' : Machine} → Reach a m → Step m m' → Reach a m'
