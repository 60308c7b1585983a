-- ===== src/HwHandler/Threads/Wakeups.antt =====
-- Whether `hardware_handler` of src/15.lab_hw_handler_condvar.c wakes up.
use qnx_box.Prelude.{
  ℕ, ◌≡◌, refl, ◌≢◌, ◌⊎◌, inl, inr, true, false, List, [], ◌∷◌, arith, Bool-cases,
}
use qnx_box.HwHandler.Threads.{
  dozing, asleep, handler_done, signalling, provider_done, State, fetch, Step, handler_enter,
  handler_leave, test_waits, test_ready, test_stopped, sleeps, spurious, writes, fetches,
  provider_enter, provider_leave, adds, drops, signals, batch_ends, signals_last, stop, init, Reach,
  here, next,
}

-- While `data_ready` is clear the queue is empty, and a handler that waits although `data_ready` is
-- set has a signal coming.
record Inv (s : State) : Type 0 where
  empty : s.data_ready ≡ false → s.queue ≡ []
  dozes : s.handler ≡ dozing → s.data_ready ≡ false
  woken : s.handler ≡ asleep → s.data_ready ≡ true → s.provider ≡ signalling

fetch-Inv : (q : List ℕ) (s : State) → s.queue ≡ q → Inv s → Inv (fetch q s)
fetch-Inv [] s e inv = record { empty = λ d. e; dozes = λ h. cc; woken = λ h. cc }
fetch-Inv (v ∷ vs) s e inv = record {
  empty = λ d. absurd (ground (arith, inv.empty d));
  dozes = λ h. cc;
  woken = λ h. cc;
}

Step-Inv : {s t : State} → Step s t → Inv s → Inv t
Step-Inv {s} (test_ready e r) inv = fetch-Inv s.queue s refl inv
Step-Inv {s} (test_stopped e r) inv = fetch-Inv s.queue s refl inv
Step-Inv {s} (fetches e) inv = fetch-Inv s.queue s refl inv
Step-Inv (adds v e free) inv = record {
  empty = λ d. cc;
  dozes = λ h. absurd (free h);
  woken = λ h d. refl;
}
Step-Inv (drops e free) inv = record {
  empty = λ d. cc;
  dozes = λ h. absurd (free h);
  woken = λ h d. refl;
}
Step-Inv (writes e) inv = record { empty = inv.empty; dozes = λ h. cc; woken = λ h. cc }
Step-Inv {s} (signals e) inv = record {
  empty = inv.empty;
  dozes = λ h. inv.dozes (ground arith);
  woken = λ h d. absurd (ground arith);
}
Step-Inv {s} (signals_last e) inv = record {
  empty = inv.empty;
  dozes = λ h. inv.dozes (ground arith);
  woken = λ h d. absurd (ground arith);
}
Step-Inv (handler_enter e r) inv = record { empty = inv.empty; dozes = λ h. cc; woken = λ h. cc }
Step-Inv (handler_leave e r) inv = record { empty = inv.empty; dozes = λ h. cc; woken = λ h. cc }
Step-Inv (test_waits e d r) inv = record { empty = inv.empty; dozes = λ h. d; woken = λ h. cc }
Step-Inv (sleeps e) inv = record {
  empty = inv.empty;
  dozes = λ h. cc;
  woken = λ h d. absurd (ground (arith, inv.dozes e));
}
Step-Inv (spurious e) inv = record { empty = inv.empty; dozes = λ h. cc; woken = λ h. cc }
Step-Inv (provider_enter e r) inv = record {
  empty = inv.empty;
  dozes = inv.dozes;
  woken = λ h d. absurd (ground (arith, inv.woken h d));
}
Step-Inv (provider_leave e r) inv = record {
  empty = inv.empty;
  dozes = inv.dozes;
  woken = λ h d. absurd (ground (arith, inv.woken h d));
}
Step-Inv (batch_ends e) inv = record {
  empty = inv.empty;
  dozes = inv.dozes;
  woken = λ h d. absurd (ground (arith, inv.woken h d));
}
Step-Inv stop inv = record { empty = inv.empty; dozes = inv.dozes; woken = inv.woken }

Reach-Inv : {s : State} → Reach init s → Inv s
Reach-Inv here = record { empty = λ d. refl; dozes = λ h. cc; woken = λ h. cc }
Reach-Inv (next r st) = Step-Inv st (Reach-Inv r)

-- In every reachable state: if the handler sleeps while the queue holds a value, the signal that
-- wakes it is the provider's next step.
pub sleeper_is_signalled :
    {s : State} → Reach init s → s.handler ≡ asleep → s.queue ≢ [] → s.provider ≡ signalling
sleeper_is_signalled {s} r e ne =
    let inv = Reach-Inv r in
    elim (Bool-cases s.data_ready) [ inl d ↦ inv.woken e d | inr d ↦ absurd (ne (inv.empty d)) ]

-- Not one of the steps that the system may or may not take by itself.
abbrev pub IsQuiet : {s t : State} → Step s t → Type 0
IsQuiet (spurious _) = ⊥
IsQuiet _ = Unit

-- The states that are reached without spurious wake-ups.
pub data Quietly (a : State) : State → Type 0 where
  at_rest : Quietly a a
  moves : {s t : State} → Quietly a s → (st : Step s t) → IsQuiet st → Quietly a t

-- The handler sleeps, or is about to, and the provider has returned.
record Hung (s : State) : Type 0 where
  handler : (s.handler ≡ dozing) ⊎ (s.handler ≡ asleep)
  provider : s.provider ≡ provider_done

Step-Hung : {s t : State} (st : Step s t) → IsQuiet st → Hung s → Hung t
Step-Hung (sleeps e) quiet h = record { handler = inr refl; provider = h.provider }
Step-Hung stop quiet h = record { handler = h.handler; provider = h.provider }
Step-Hung (handler_enter e r) quiet h = absurd (ground (arith, h.handler))
Step-Hung (handler_leave e r) quiet h = absurd (ground (arith, h.handler))
Step-Hung (test_waits e d r) quiet h = absurd (ground (arith, h.handler))
Step-Hung (test_ready e r) quiet h = absurd (ground (arith, h.handler))
Step-Hung (test_stopped e r) quiet h = absurd (ground (arith, h.handler))
Step-Hung (spurious e) quiet h = absurd quiet
Step-Hung (writes e) quiet h = absurd (ground (arith, h.handler))
Step-Hung (fetches e) quiet h = absurd (ground (arith, h.handler))
Step-Hung (provider_enter e r) quiet h = absurd (ground (arith, h.provider))
Step-Hung (provider_leave e r) quiet h = absurd (ground (arith, h.provider))
Step-Hung (adds v e f) quiet h = absurd (ground (arith, h.provider))
Step-Hung (drops e f) quiet h = absurd (ground (arith, h.provider))
Step-Hung (signals e) quiet h = absurd (ground (arith, h.provider))
Step-Hung (batch_ends e) quiet h = absurd (ground (arith, h.provider))
Step-Hung (signals_last e) quiet h = absurd (ground (arith, h.provider))

Quietly-Hung : {s t : State} → Quietly s t → Hung s → Hung t
Quietly-Hung at_rest h = h
Quietly-Hung (moves q st quiet) h = Step-Hung st quiet (Quietly-Hung q h)

-- A handler that has tested `running` before the stop and falls asleep after the provider's last
-- signal never returns, unless a spurious wake-up helps: `main` stays in pthread_join.
pub late_sleeper_hangs :
    {s t : State}
    → (s.handler ≡ dozing) ⊎ (s.handler ≡ asleep)
    → s.provider ≡ provider_done
    → Quietly s t
    → t.handler ≢ handler_done
late_sleeper_hangs h p q d =
    let hung = Quietly-Hung q (record { handler = h; provider = p }) in ground (arith, hung.handler)
