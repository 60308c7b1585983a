-- ===== src/StateMachine/Reports.antt =====
-- What the threads of src/17.lab_state_machine.c report, in which order.
use qnx_box.Prelude.{
  ℕ, zero, suc, ◌-◌, ◌%◌, ◌<◌, ◌≡◌, List, [], ◌∷◌, arith, ◌==◌, ltb, if◌then◌else◌,
}
use qnx_box.StateMachine.{
  Machine, threads, critical_section, Step, fire, stop, init, Reach, here, next,
}

-- The reports of 1 .. n, newest first: each number once, the even ones by thread 2 and the odd ones
-- by thread 3.
unfoldable pub expected : ℕ → List (ℕ × ℕ)
expected zero = []
expected (suc n) = (if suc n % 2 == 0 then 2 else 3, suc n) ∷ expected n

-- In the states 2 and 3 the last increment has not been reported yet.
abbrev pub reported : Machine → ℕ
reported m = if ltb 1 m.state then m.counter - 1 else m.counter

record Inv (m : Machine) : Type 0 where
  state : m.state < threads
  even : m.state ≡ 2 → (m.counter % 2 ≡ 0) × (0 < m.counter)
  odd : m.state ≡ 3 → m.counter % 2 ≡ 1
  reports : m.reports ≡ expected (reported m)

-- `expected` at a number whose predecessor is computed by `-`.
expected-pred : (n : ℕ) → 0 < n → expected n ≡ (if n % 2 == 0 then 2 else 3, n) ∷ expected (n - 1)
unfolding expected
expected-pred zero h = absurd (omega arith)
expected-pred (suc n) h = ground arith

fire-Inv : (t : ℕ) (m : Machine) → t < threads → m.state ≡ t → Inv m → Inv (critical_section t m)
fire-Inv zero m lt e inv = ground arith
fire-Inv (suc zero) m lt e inv = ground arith
fire-Inv (suc (suc zero)) m lt e inv = ground (arith, expected-pred m.counter)
fire-Inv (suc (suc (suc t))) m lt e inv = ground (arith, expected-pred m.counter)

Step-Inv : {m n : Machine} → Step m n → Inv m → Inv n
Step-Inv {m} (fire t lt p e) inv =
    let after = fire-Inv t m lt e inv in
    record { state = after.state; even = after.even; odd = after.odd; reports = after.reports }
Step-Inv stop inv = record {
  state = inv.state;
  even = inv.even;
  odd = inv.odd;
  reports = inv.reports;
}
Step-Inv other inv = record {
  state = inv.state;
  even = inv.even;
  odd = inv.odd;
  reports = inv.reports;
}

init-Inv : Inv init
unfolding expected
init-Inv = ground arith

Reach-Inv : {m : Machine} → Reach init m → Inv m
Reach-Inv here = init-Inv
Reach-Inv (next r st) = Step-Inv st (Reach-Inv r)

-- In every reachable state the reports are those of 1, 2, 3, …, each number once and in order, the
-- even ones by `state_two` and the odd ones by `state_three`, up to the counter, or to the number
-- before it while its report is still due.
pub reports_lem : {m : Machine} → Reach init m → m.reports ≡ expected (reported m)
reports_lem r = (Reach-Inv r).reports
