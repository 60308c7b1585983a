-- ===== src/StateMachine/Waiting.antt =====
-- No wake-up is lost in src/17.lab_state_machine.c.
use qnx_box.Prelude.{ℕ, zero, suc, ◌<◌, ◌≡◌, refl, ◌≢◌, true, arith}
use qnx_box.StateMachine.{
  Pc, top, ready, asleep, notify, finished, Machine, critical_section, threads, Step, enter, leave,
  block, fire, broadcast, spurious, stop, init, Reach, here, next,
}

-- Some thread is about to broadcast.
abbrev pub Pending : Machine → Type 0
Pending m = (u : ℕ) × (u < threads) × (m.pc u ≡ notify)

-- The thread whose state has come does not sleep, unless it is about to be woken.
record Inv (m : Machine) : Type 0 where
  state : m.state < threads
  awake : m.pc m.state ≡ asleep → Pending m
  live : m.running ≡ true → (t : ℕ) → m.pc t ≢ finished

fire-state : (t : ℕ) (m : Machine) → t < threads → (critical_section t m).state < threads
fire-state zero m lt = omega arith
fire-state (suc zero) m lt = ground arith
fire-state (suc (suc zero)) m lt = omega arith
fire-state (suc (suc (suc t))) m lt = omega arith

fire-running : (t : ℕ) (m : Machine) → (critical_section t m).running ≡ true → m.running ≡ true
fire-running zero m r = r
fire-running (suc zero) m r = r
fire-running (suc (suc zero)) m r = r
fire-running (suc (suc (suc t))) m r = r

Step-Inv : {m n : Machine} → Step m n → Inv m → Inv n
Step-Inv {m} (fire t lt p e) inv = record {
  state = fire-state t m lt;
  awake = λ a. (t, lt, ground arith);
  live = λ r j. ground (arith, inv.live (fire-running t m r) j);
}
Step-Inv (broadcast t lt p) inv = record {
  state = inv.state;
  awake = λ a. absurd (ground arith);
  live = λ r j. ground (arith, inv.live r j);
}
Step-Inv (leave t lt p r) inv = record {
  state = inv.state;
  awake = λ a. let (u, ltu, e) = inv.awake (ground arith) in (u, ltu, ground arith);
  live = λ on j. absurd (ground arith);
}
Step-Inv stop inv = record { state = inv.state; awake = inv.awake; live = λ on. cc }
Step-Inv (enter t lt p r) inv = record {
  state = inv.state;
  awake = λ a. let (u, ltu, e) = inv.awake (ground arith) in (u, ltu, ground arith);
  live = λ on j. ground (arith, inv.live on j);
}
Step-Inv (block t lt p ne) inv = record {
  state = inv.state;
  awake = λ a. let (u, ltu, e) = inv.awake (ground arith) in (u, ltu, ground arith);
  live = λ on j. ground (arith, inv.live on j);
}
Step-Inv (spurious t lt p) inv = record {
  state = inv.state;
  awake = λ a. let (u, ltu, e) = inv.awake (ground arith) in (u, ltu, ground arith);
  live = λ on j. ground (arith, inv.live on j);
}

Reach-Inv : {m : Machine} → Reach init m → Inv m
Reach-Inv here = record { state = omega arith; awake = λ a. absurd (cc); live = λ on t. cc }
Reach-Inv (next r st) = Step-Inv st (Reach-Inv r)

-- A step of one of the four threads that the program itself takes.
abbrev pub IsOwn : {m n : Machine} → Step m n → Type 0
IsOwn (spurious _ _ _) = ⊥
IsOwn stop = ⊥
IsOwn _ = Unit

module _ {m : Machine} (inv : Inv m) (on : m.running ≡ true) where
  state_moves : (p : Pc) → m.pc m.state ≡ p → (n : Machine) × (st : Step m n) × IsOwn st
  state_moves top e = (_, enter m.state inv.state e on, tt)
  state_moves ready e = (_, fire m.state inv.state e refl, tt)
  state_moves asleep e = let (u, lt, p) = inv.awake e in (_, broadcast u lt p, tt)
  state_moves notify e = (_, broadcast m.state inv.state e, tt)
  state_moves finished e = absurd (inv.live on m.state e)

-- Up to the stop the program never gets stuck: in every reachable state one of the threads can make
-- a step, without a spurious wake-up.
pub running_progress :
    {m : Machine} → Reach init m → m.running ≡ true → (n : Machine) × (st : Step m n) × IsOwn st
running_progress {m} r on = state_moves (Reach-Inv r) on (m.pc m.state) refl

-- A thread that sleeps while its state has come is woken by a broadcast that is still to come.
pub sleeper_is_woken : {m : Machine} → Reach init m → m.pc m.state ≡ asleep → Pending m
sleeper_is_woken r = (Reach-Inv r).awake
