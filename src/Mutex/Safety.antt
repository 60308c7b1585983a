-- ===== src/Mutex/Safety.antt =====
-- What the mutex of src/10.lab_mutex.c gives, and what is left without it.
use mathlib.Core.Path.{subst}
use qnx_box.Prelude.{
  ℕ, ◌*◌, ◌≤◌, ◌<◌, ◌≡◌, refl, Bool, true, arith, ap, ◌∙◌, update, weigh, weigh-update, weigh-const,
}
use qnx_box.Mutex.{
  rounds, Pc, holding, Shared, Move, store, finish, System, pick, init, Run, start, next, IsJoined,
}
use qnx_box.Mutex.Invariant.{stored, is_critical, IsInRange, Move-IsInRange, Run-Locked}

-- With the mutex two threads are never in the critical section at once, whatever the schedule.
pub mutual_exclusion :
    {n k : ℕ} {s : System}
    → Run true n k s
    → (t u : ℕ) → is_critical (s.pc t) ≡ true
    → is_critical (s.pc u) ≡ true
    → t ≡ u
mutual_exclusion r t u ct cu =
    let inv = Run-Locked r in ground (arith, inv.owner t ct, inv.owner u cu)

-- With the mutex no increment is lost: once all threads have returned, the counter that `main`
-- prints is five times their number.
pub final_counter :
    {n k : ℕ} {s : System} → Run true n k s → IsJoined n s → s.mem.counter ≡ n * rounds
final_counter {n} {s} r joined =
    (Run-Locked r).counts ∙ weigh-const stored rounds n s.pc (λ t lt. ap stored (joined t lt))

-- Without it: each local copy, and the counter, is at most the number of stored increments.
record Loose (n : ℕ) (s : System) : Type 0 where
  range : (t : ℕ) → IsInRange (s.pc t)
  bound : s.mem.counter ≤ weigh stored n s.pc
  locals : (t i l : ℕ) → s.pc t ≡ holding i l → l ≤ weigh stored n s.pc

module _ {n : ℕ} {s : System} (inv : Loose n s) (t : ℕ) (lt : t < n) where
  open inv use {range, bound, locals}

  Move-Loose :
      {b : Bool} {p p' : Pc} {m' : Shared}
      → Move b t s.mem p m' p'
      → s.pc t ≡ p
      → Loose n (record { mem = m'; pc = update s.pc t p' })
  Move-Loose {p'} (finish g) e = record {
    range = λ j. ground (arith, range j);
    bound = ground (arith, range t, weigh-update stored n s.pc t p');
    locals = λ j i l h. ground (arith, locals j i l, range t, weigh-update stored n s.pc t p');
  }
  Move-Loose {p'} (store {i = x} {l = y}) e = record {
    range = λ j. ground (arith, range j, range t);
    bound = ground (arith, locals t x y, weigh-update stored n s.pc t p');
    locals = λ j i l h. ground (arith, locals j i l, weigh-update stored n s.pc t p');
  }
  Move-Loose {p'} mv e = record {
    range = λ j. ground (arith, range j, Move-IsInRange mv (subst IsInRange e (range t)));
    bound = ground (arith, weigh-update stored n s.pc t p');
    locals = λ j i l h. ground (arith, locals j i l, weigh-update stored n s.pc t p');
  }

init-Loose : (n : ℕ) → Loose n init
init-Loose n = record { range = λ t. omega arith; bound = omega arith; locals = λ t i l h. cc }

Run-Loose : {b : Bool} {n k : ℕ} {s : System} → Run b n k s → Loose n s
Run-Loose {n} start = init-Loose n
Run-Loose (next r (pick t lt mv)) = Move-Loose (Run-Loose r) t lt mv refl

-- With or without the mutex the printed counter is at most five times the number of threads.
pub final_counter_bound :
    {b : Bool} {n k : ℕ} {s : System} → Run b n k s → IsJoined n s → s.mem.counter ≤ n * rounds
final_counter_bound {n} {s} r joined =
    let whole = weigh-const stored rounds n s.pc (λ t lt. ap stored (joined t lt)) in
    omega (arith, (Run-Loose r).bound)
