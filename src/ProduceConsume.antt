-- ===== src/ProduceConsume.antt =====
-- The producer and the consumer of src/16.lab_produce_consume.c. What a thread does between a lock
-- and the next unlock is one step; the tests of `running` outside, the signal and the delay are not
-- under the mutex. `running` is read again in the wait, so a thread that has it cleared goes on
-- without its turn. `product` is an int that grows by ten a second, and is taken as unbounded.
pub mod Turns
pub mod Shutdown
mod Tests
use qnx_box.Prelude.{ℕ, suc, ◌≡◌, ◌≢◌, ◌⊎◌, Bool, true, false, List, [], ◌∷◌}

-- `state`
pub data Turn : Type 0 where
  to_produce to_consume : Turn

-- Where a thread stands.
pub data Pc : Type 0 where
  top : Pc  -- before `while (running)`
  ready : Pc  -- about to get the mutex and to test, first or after a wake-up
  asleep : Pc  -- in pthread_cond_wait
  notify : Pc  -- before pthread_cond_signal
  finished : Pc

-- The globals, the values printed as produced and as consumed, newest first, and the two threads.
pub record State : Type 0 where
  pub turn : Turn
  pub product : ℕ
  pub running : Bool
  pub produced : List ℕ
  pub consumed : List ℕ
  pub producer : Pc
  pub consumer : Pc

-- The critical sections behind the waits.
abbrev pub produce : State → State
produce s = record s {
  turn = to_consume;
  product = suc s.product;
  produced = suc s.product ∷ s.produced;
  producer = notify;
}

abbrev pub consume : State → State
consume s = record s { turn = to_produce; consumed = s.product ∷ s.consumed; consumer = notify }

-- pthread_cond_signal, for the other thread
abbrev pub wake : Pc → Pc
wake asleep = ready
wake p = p

pub data Step (s : State) : State → Type 0 where
  producer_enters : s.producer ≡ top → s.running ≡ true → Step s (record s { producer = ready })
  producer_leaves : s.producer ≡ top → s.running ≡ false → Step s (record s { producer = finished })
  producer_waits :
      s.producer ≡ ready
      → s.turn ≢ to_produce
      → s.running ≡ true
      → Step s (record s { producer = asleep })
  produces : s.producer ≡ ready → (s.turn ≡ to_produce) ⊎ (s.running ≡ false) → Step s (produce s)
  producer_signals :
      s.producer ≡ notify → Step s (record s { producer = top; consumer = wake s.consumer })
  producer_spurious : s.producer ≡ asleep → Step s (record s { producer = ready })
  consumer_enters : s.consumer ≡ top → s.running ≡ true → Step s (record s { consumer = ready })
  consumer_leaves : s.consumer ≡ top → s.running ≡ false → Step s (record s { consumer = finished })
  consumer_waits :
      s.consumer ≡ ready
      → s.turn ≢ to_consume
      → s.running ≡ true
      → Step s (record s { consumer = asleep })
  consumes : s.consumer ≡ ready → (s.turn ≡ to_consume) ⊎ (s.running ≡ false) → Step s (consume s)
  consumer_signals :
      s.consumer ≡ notify → Step s (record s { consumer = top; producer = wake s.producer })
  consumer_spurious : s.consumer ≡ asleep → Step s (record s { consumer = ready })
  -- `running = 0` in the main thread
  stop : Step s (record s { running = false })

abbrev pub init : State
init = record {
  turn = to_produce;
  product = 0;
  running = true;
  produced = [];
  consumed = [];
  producer = top;
  consumer = top;
}

pub data Reach (a : State) : State → Type 0 where
  here : Reach a a
  next : {s t : State} → Reach a s → Step s t → Reach a t
