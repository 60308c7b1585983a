-- ===== src/ProcessTimer/Children.antt =====
-- The children of src/28.lab_process_timer.c.
use mathlib.Core.Path.{subst}
use qnx_box.Prelude.{
  ℕ, suc, ◌+◌, ◌<◌, ◌≡◌, refl, ap, true, false, none, some, List, [], ◌∷◌, arith, weigh,
  weigh-update, weigh-const, Bool-cases, ◌&&◌, inl, inr,
}
use qnx_box.ProcessTimer.{
  Process, absent, running, zombie, State, Event, receive_failed, timer_pulse, other_pulse, message,
  terminated, kill, forked, Os, create_channel, create_timer, round, loop, process_timer,
}

abbrev pub is_zombie : Process → ℕ
is_zombie zombie = 1
is_zombie _ = 0

-- Among the numbers below `n` there is one running child at most: the one of the parent, which prints
-- the parent's count; and the ended ones are as many as the count.
pub record Alone (n : ℕ) (s : State) : Type 0 where
  pub in_range : s.process_pid < n
  pub current : s.process s.process_pid ≡ running s.process_count
  pub only : (p k : ℕ) → s.process p ≡ running k → p ≡ s.process_pid
  pub zombies : weigh is_zombie n s.process ≡ s.process_count

-- What fork gives is below `n`, and is not the number of a process that is there, ended ones included.
abbrev pub IsFresh : ℕ → State → Event → Type 0
IsFresh n s (timer_pulse (some pid)) = (pid < n) × (s.process pid ≡ absent)
IsFresh n s _ = Unit

abbrev pub AreFresh : ℕ → State → List Event → Type 0
AreFresh n s [] = Unit
AreFresh n s (e ∷ es) = IsFresh n s e × AreFresh n (round s e).1 es

kill-zombies :
    (n : ℕ) (s : State)
    → Alone n s
    → weigh is_zombie n (kill s.process s.process_pid) ≡ suc s.process_count
kill-zombies n s alone = ground (
  arith,
  weigh-update is_zombie n s.process s.process_pid (terminated (s.process s.process_pid))
      alone.in_range,
  alone.zombies,
  alone.current,
)

round-Alone :
    (n : ℕ) (s : State) (e : Event)
    → Alone n s
    → IsFresh n s e
    → (round s e).0 ≡ true
    → Alone n (round s e).1
unfolding round
round-Alone n s receive_failed alone fresh ok = alone
round-Alone n s other_pulse alone fresh ok = alone
round-Alone n s (message r) alone fresh ok = alone
round-Alone n s (timer_pulse none) alone fresh ok = absurd (ground arith)
round-Alone n s (timer_pulse (some pid)) alone (small, free) ok =
    let killed = kill s.process s.process_pid in
    record {
      in_range = small;
      current = ground arith;
      only = λ p k e. ground (arith, alone.only p k, alone.current);
      zombies = ground (
        arith,
        weigh-update is_zombie n killed pid (running (suc s.process_count)) small,
        kill-zombies n s alone,
        alone.current,
      );
    }

abbrev pub pulses : List Event → ℕ
pulses [] = 0
pulses (timer_pulse f ∷ es) = suc (pulses es)
pulses (e ∷ es) = pulses es

round-count :
    (s : State) (e : Event) → (round s e).1.process_count ≡ s.process_count + pulses (e ∷ [])
unfolding round
round-count s receive_failed = omega arith
round-count s (timer_pulse none) = omega arith
round-count s (timer_pulse (some pid)) = omega arith
round-count s other_pulse = omega arith
round-count s (message r) = omega arith

pulses-cons : (e : Event) (es : List Event) → pulses (e ∷ es) ≡ pulses (e ∷ []) + pulses es
pulses-cons (timer_pulse f) es = omega arith
pulses-cons receive_failed es = omega arith
pulses-cons other_pulse es = omega arith
pulses-cons (message r) es = omega arith

loop-Alone :
    (n : ℕ) (s : State) (es : List Event)
    → Alone n s
    → AreFresh n s es
    → (loop s es).0 ≡ true
    → Alone n (loop s es).1 × ((loop s es).1.process_count ≡ s.process_count + pulses es)
unfolding loop
loop-Alone n s [] alone fresh ok = (alone, omega arith)
loop-Alone n s (e ∷ es) alone (fresh, later) ok = elim (Bool-cases (round s e).0) [
  | inl goes_on ↦
      let (all, count) =
        loop-Alone n (round s e).1 es (round-Alone n s e alone fresh goes_on) later
          (ground (arith, ok, goes_on)) in
      rw goes_on (all, omega (arith, count, round-count s e, pulses-cons e es))
  | inr stops ↦ absurd (ground (arith, ok, stops))
]

abbrev pub no_children : ℕ → Process
no_children p = absent

abbrev pub with_child : ℕ → State
with_child pid = record { process_count = 0; process_pid = pid; process = forked no_children pid 0 }

with_child-Alone : (n pid : ℕ) → pid < n → Alone n (with_child pid)
with_child-Alone n pid small = record {
  in_range = small;
  current = ground arith;
  only = λ p k e. ground arith;
  zombies = omega (
    arith,
    weigh-const is_zombie 0 n no_children (λ i lt. refl),
    weigh-update is_zombie n no_children pid (running 0) small,
  );
}

-- While the parent runs: exactly one child runs, the one of the last fork, and prints the number of timer
-- pulses so far; and as many ended children as there were pulses are still there, since the parent waits
-- for none of them. Where the set-up of the channel or of the timer fails, the parent exits and leaves its
-- first child running. What fork gives is below `n` and is not the number of a process that is there.
pub process_timer_lem :
    (n pid : ℕ) (os : Os) (es : List Event)
    → pid < n
    → AreFresh n (with_child pid) es
    → ((s : State)
        → process_timer no_children (some pid) os es ≡ some (true, s)
        → Alone n s × (s.process_count ≡ pulses es))
      × (create_channel os && create_timer os ≡ false
          → process_timer no_children (some pid) os es ≡ some (false, with_child pid))
unfolding process_timer
process_timer_lem n pid os es small fresh = (
  λ s got.
      let ran : loop (with_child pid) es ≡ (true, s) = ground (arith, got) in
      let (alone, count) =
        subst (λ u. Alone n u × (u.process_count ≡ 0 + pulses es)) (ap (λ r. r.1) ran)
          (loop-Alone n (with_child pid) es (with_child-Alone n pid small) fresh
            (ap (λ r. r.0) ran)) in
      (alone, omega (arith, count)),
  λ fails. ground (arith, fails),
)
