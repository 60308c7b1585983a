-- ===== src/StateMachine/Shutdown.antt =====
-- How src/17.lab_state_machine.c ends, after `running = 0`: the waits do not test `running`.
use qnx_box.Prelude.{
  ℕ, zero, suc, ◌<◌, ◌≤◌, ◌≡◌, refl, ◌⊎◌, inl, inr, Bool, true, false, arith, update,
}
use qnx_box.StateMachine.{
  Pc, ready, asleep, notify, Machine, critical_section, threads, Step, enter, leave, block, fire,
  broadcast, spurious, stop, Reach, here, next,
}

-- The thread is in the loop that waits for its state.
abbrev pub is_waiting : Pc → Bool
is_waiting ready = true
is_waiting asleep = true
is_waiting _ = false

abbrev pub Waits : ℕ → Machine → Type 0
Waits t m = is_waiting (m.pc t) ≡ true

-- The phases after a stop that left the threads 2 and 3 waiting and the state before theirs.
data Phase (m : Machine) : Type 0 where
  before : m.state < 2 → Waits 2 m → Waits 3 m → Phase m
  between :
      2 ≤ m.state → m.state < 4 → Waits 2 m → Waits 3 m → is_waiting (m.pc 1) ≡ false → Phase m
  two_left : m.state < 2 → Waits 2 m → is_waiting (m.pc 1) ≡ false → Phase m
  three_left : m.state < 2 → Waits 3 m → is_waiting (m.pc 1) ≡ false → Phase m

record Stopped (m : Machine) : Type 0 where
  off : m.running ≡ false
  phase : Phase m

fire-Phase :
    (t : ℕ) (m : Machine)
    → t < threads
    → m.pc t ≡ ready
    → m.state ≡ t
    → Phase m
    → Phase (record (critical_section t m) { pc = update m.pc t notify })
fire-Phase zero m lt p e (before l a b) = before (omega arith) (ground arith) (ground arith)
fire-Phase zero m lt p e (between g l a b c) = absurd (omega arith)
fire-Phase zero m lt p e (two_left l a c) = two_left (omega arith) (ground arith) (ground arith)
fire-Phase zero m lt p e (three_left l a c) = three_left (omega arith) (ground arith) (ground arith)
fire-Phase (suc zero) m lt p e (before l a b) =
    between (ground arith) (ground arith) (ground arith) (ground arith) (ground arith)
fire-Phase (suc zero) m lt p e (between g l a b c) = absurd (omega arith)
fire-Phase (suc zero) m lt p e (two_left l a c) = absurd (ground arith)
fire-Phase (suc zero) m lt p e (three_left l a c) = absurd (ground arith)
fire-Phase (suc (suc zero)) m lt p e (between g l a b c) =
    three_left (omega arith) (ground arith) (ground arith)
fire-Phase (suc (suc zero)) m lt p e (before l a b) = absurd (omega arith)
fire-Phase (suc (suc zero)) m lt p e (two_left l a c) = absurd (omega arith)
fire-Phase (suc (suc zero)) m lt p e (three_left l a c) = absurd (omega arith)
fire-Phase (suc (suc (suc t))) m lt p e (between g l a b c) =
    two_left (omega arith) (ground arith) (ground arith)
fire-Phase (suc (suc (suc t))) m lt p e (before l a b) = absurd (omega arith)
fire-Phase (suc (suc (suc t))) m lt p e (two_left l a c) = absurd (omega arith)
fire-Phase (suc (suc (suc t))) m lt p e (three_left l a c) = absurd (omega arith)

-- Any other step leaves the state and the waiting of the threads 1, 2 and 3 as they are.
keep-Phase :
    (m n : Machine)
    → n.state ≡ m.state
    → ((t : ℕ) → is_waiting (m.pc t) ≡ is_waiting (n.pc t))
    → Phase m
    → Phase n
keep-Phase m n e w (before l a b) = before (omega arith) (ground (arith, w 2)) (ground (arith, w 3))
keep-Phase m n e w (between g l a b c) =
    between (omega arith) (omega arith) (ground (arith, w 2)) (ground (arith, w 3))
      (ground (arith, w 1))
keep-Phase m n e w (two_left l a c) =
    two_left (omega arith) (ground (arith, w 2)) (ground (arith, w 1))
keep-Phase m n e w (three_left l a c) =
    three_left (omega arith) (ground (arith, w 3)) (ground (arith, w 1))

fire-running : (t : ℕ) (m : Machine) → (critical_section t m).running ≡ m.running
fire-running zero m = refl
fire-running (suc zero) m = refl
fire-running (suc (suc zero)) m = refl
fire-running (suc (suc (suc t))) m = refl

Step-Stopped : {m n : Machine} → Step m n → Stopped m → Stopped n
Step-Stopped {m} (fire t lt p e) s = record {
  off = rw fire-running s.off;
  phase = fire-Phase t m lt p e s.phase;
}
Step-Stopped (enter t lt p on) s = absurd (ground (arith, s.off))
Step-Stopped {m} (leave t lt p o) s = record {
  off = s.off;
  phase = keep-Phase m _ refl (λ j. ground arith) s.phase;
}
Step-Stopped {m} (block t lt p ne) s = record {
  off = s.off;
  phase = keep-Phase m _ refl (λ j. ground arith) s.phase;
}
Step-Stopped {m} (broadcast t lt p) s = record {
  off = s.off;
  phase = keep-Phase m _ refl (λ j. ground arith) s.phase;
}
Step-Stopped {m} (spurious t lt p) s = record {
  off = s.off;
  phase = keep-Phase m _ refl (λ j. ground arith) s.phase;
}
Step-Stopped {m} stop s = record { off = refl; phase = keep-Phase m _ refl (λ j. refl) s.phase }

Reach-Stopped : {m n : Machine} → Stopped m → Reach m n → Stopped n
Reach-Stopped s here = s
Reach-Stopped s (next r st) = Step-Stopped st (Reach-Stopped s r)

Phase-waiter : {m : Machine} → Phase m → Waits 2 m ⊎ Waits 3 m
Phase-waiter (before l a b) = inl a
Phase-waiter (between g l a b c) = inl a
Phase-waiter (two_left l a c) = inl a
Phase-waiter (three_left l a c) = inr a

-- If `running` is cleared while the state is 0 or 1 and the threads 2 and 3 wait for their states,
-- then in every later state thread 2 or thread 3 is still waiting: the threads never all return, and
-- `main` stays in pthread_join.
pub shutdown_hangs :
    {m n : Machine}
    → m.running ≡ false
    → m.state < 2
    → Waits 2 m
    → Waits 3 m
    → Reach m n
    → Waits 2 n ⊎ Waits 3 n
shutdown_hangs off l a b r =
    Phase-waiter (Reach-Stopped (record { off = off; phase = before l a b }) r).phase
