-- ===== src/Mutex/Invariant.antt =====
-- What every step of the threads of src/10.lab_mutex.c keeps, with and without the mutex.
use qnx_box.Prelude.{
  ℕ, suc, ◌≤◌, ◌<◌, ◌≡◌, refl, Bool, true, false, some, arith, update, weigh, weigh-update,
  weigh-const,
}
use qnx_box.Mutex.{
  rounds, Pc, top, inside, holding, leaving, finished, Shared, Move, acquire, walk_in, walk_out,
  finish, System, Step, pick, init, Run, start, next,
}

-- Increments that a thread has stored.
abbrev pub stored : Pc → ℕ
stored (top i) = i
stored (inside i) = i
stored (holding i _) = i
stored (leaving i) = suc i
stored finished = rounds

abbrev pub IsInRange : Pc → Type 0
IsInRange (top i) = i ≤ rounds
IsInRange (inside i) = i < rounds
IsInRange (holding i _) = i < rounds
IsInRange (leaving i) = i < rounds
IsInRange finished = Unit

abbrev pub is_critical : Pc → Bool
is_critical (inside _) = true
is_critical (holding _ _) = true
is_critical (leaving _) = true
is_critical _ = false

-- A local copy is the counter's value: no other thread has stored in between.
abbrev pub IsFresh : Shared → Pc → Type 0
IsFresh m (holding _ l) = m.counter ≡ l
IsFresh m _ = Unit

pub Move-IsInRange :
    {b : Bool} {t : ℕ} {m m' : Shared} {p p' : Pc} → Move b t m p m' p' → IsInRange p → IsInRange p'
Move-IsInRange (acquire u i f) h = i
Move-IsInRange (walk_in f i) h = i
Move-IsInRange mv h = ground arith

-- Under the mutex: a thread in the critical section is the owner, an owner is in the critical
-- section, and the counter is the number of stored increments.
pub record Locked (n : ℕ) (s : System) : Type 0 where
  pub range : (t : ℕ) → IsInRange (s.pc t)
  pub owner : (t : ℕ) → is_critical (s.pc t) ≡ true → s.mem.lock ≡ some t
  pub held : (t : ℕ) → s.mem.lock ≡ some t → (is_critical (s.pc t) ≡ true) × (t < n)
  pub fresh : (t : ℕ) → IsFresh s.mem (s.pc t)
  pub counts : s.mem.counter ≡ weigh stored n s.pc

module _ {n : ℕ} {s : System} (inv : Locked n s) (t : ℕ) (lt : t < n) where
  open inv use {range, owner, held, fresh}

  Move-Locked :
      {p p' : Pc} {m' : Shared}
      → Move true t s.mem p m' p'
      → s.pc t ≡ p
      → Locked n (record { mem = m'; pc = update s.pc t p' })
  Move-Locked {p'} (acquire u i free) e = record {
    range = λ j. ground (arith, range j);
    owner = λ j c. ground (arith, owner j);
    held = λ j h. ground (arith, held j);
    fresh = λ j. ground (arith, fresh j);
    counts = ground (arith, inv.counts, weigh-update stored n s.pc t p');
  }
  Move-Locked (walk_in f u) e = absurd (ground arith)
  Move-Locked (walk_out f) e = absurd (ground arith)
  Move-Locked {p'} (finish u) e = record {
    range = λ j. ground (arith, range j);
    owner = λ j c. ground (arith, owner j);
    held = λ j h. ground (arith, held j);
    fresh = λ j. ground (arith, fresh j);
    counts = ground (arith, inv.counts, range t, weigh-update stored n s.pc t p');
  }
  Move-Locked {p'} mv e = record {
    range = λ j. ground (arith, range j);
    owner = λ j c. ground (arith, owner j, owner t);
    held = λ j h. ground (arith, held j, owner t);
    fresh = λ j. ground (arith, fresh j, owner j, owner t);
    counts = ground (arith, inv.counts, fresh t, weigh-update stored n s.pc t p');
  }

pub Step-Locked : {n : ℕ} {s u : System} → Step true n s u → Locked n s → Locked n u
Step-Locked (pick t lt mv) inv = Move-Locked inv t lt mv refl

init-Locked : (n : ℕ) → Locked n init
init-Locked n = record {
  range = λ t. omega arith;
  owner = λ t c. cc;
  held = λ t h. cc;
  fresh = λ t. tt;
  counts = omega (arith, weigh-const stored 0 n (λ _. top 0) (λ i lt. refl));
}

pub Run-Locked : {n k : ℕ} {s : System} → Run true n k s → Locked n s
Run-Locked {n} start = init-Locked n
Run-Locked (next r st) = Step-Locked st (Run-Locked r)
