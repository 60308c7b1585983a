-- ===== src/Variables/Equal.antt =====
-- With the mutex the threads of src/11.lab_assignment_2.c never see two different values.
use qnx_box.Prelude.{
  ℕ, ◌^◌, ◌<◌, ◌≡◌, refl, Bool, true, false, none, some, arith, update, Option-cases, inl, inr,
}
use qnx_box.Variables.{
  add, Pc, top, locking, inside, testing, reporting, fixing, working, worked, add1, added1, sub1,
  subbed1, add2, added2, sub2, subbed2, leaving, finished, Shared, Move, acquire, walk_in, differ,
  walk_out, System, pick, stop, init, Reach, here, next,
}

abbrev pub is_critical : Pc → Bool
is_critical top = false
is_critical locking = false
is_critical finished = false
is_critical _ = true

-- All three variables are equal.
abbrev pub Same : Shared → Type 0
Same m = (m.var1 ≡ m.var2) × (m.var3 ≡ m.var2)

-- What the variables are while a thread is at a place of the critical section, and what it has read.
abbrev pub Middle : Shared → Pc → Type 0
Middle m inside = Same m
Middle m (testing w) = Same m × (w ≡ m.var2)
Middle m working = Same m
Middle m (worked w) = Same m × (w ≡ m.var2)
Middle m add1 = (m.var1 ≡ m.var2) × (m.var3 ≡ add m.var2 1)
Middle m (added1 w) = (m.var1 ≡ m.var2) × (m.var3 ≡ add m.var2 1) × (w ≡ m.var1)
Middle m sub1 = (m.var1 ≡ add m.var2 2) × (m.var3 ≡ add m.var2 1)
Middle m (subbed1 w) = (m.var1 ≡ add m.var2 2) × (m.var3 ≡ add m.var2 1) × (w ≡ m.var1)
Middle m add2 = (m.var1 ≡ add m.var2 1) × (m.var3 ≡ m.var1)
Middle m (added2 w) = (m.var1 ≡ add m.var2 1) × (m.var3 ≡ m.var1) × (w ≡ m.var2)
Middle m sub2 = (m.var2 ≡ add m.var1 1) × (m.var3 ≡ m.var1)
Middle m (subbed2 w) = (m.var2 ≡ add m.var1 1) × (m.var3 ≡ m.var1) × (w ≡ m.var2)
Middle m leaving = Same m
Middle m reporting = ⊥
Middle m (fixing w) = ⊥
Middle m _ = Unit

abbrev pub IsWord : Shared → Type 0
IsWord m = (m.var1 < 2 ^ 32) × (m.var2 < 2 ^ 32) × (m.var3 < 2 ^ 32)

-- Under the mutex: a thread in the critical section is the owner, an owner is in the critical
-- section; the variables are equal when nobody is, and a thread in it has made them differ in a known
-- way; no difference was reported.
pub record Inv (n : ℕ) (s : System) : Type 0 where
  pub owner : (t : ℕ) → is_critical (s.pc t) ≡ true → s.mem.lock ≡ some t
  pub held : (t : ℕ) → s.mem.lock ≡ some t → (is_critical (s.pc t) ≡ true) × (t < n)
  pub same : s.mem.lock ≡ none → Same s.mem
  pub middle : (t : ℕ) → Middle s.mem (s.pc t)
  pub word : IsWord s.mem
  pub silent : s.mem.reports ≡ 0

module _ {n : ℕ} {s : System} (inv : Inv n s) (t : ℕ) (lt : t < n) where
  open inv use {owner, held, same, middle, word, silent}

  Move-Inv :
      {p p' : Pc} {m' : Shared}
      → Move true t s.mem p m' p'
      → s.pc t ≡ p
      → Inv n (record { mem = m'; pc = update s.pc t p' })
  Move-Inv {p'} (acquire u free) e = record {
    owner = λ j c. ground (arith, owner j);
    held = λ j h. ground (arith, held j);
    same = λ h. cc;
    middle = λ j. ground (arith, middle j, same free);
    word = word;
    silent = silent;
  }
  Move-Inv (walk_in f) e = absurd (ground arith)
  Move-Inv (walk_out f) e = absurd (ground arith)
  Move-Inv (differ ne) e = absurd (ground (arith, ne, middle t))
  Move-Inv {p'} mv e = record {
    owner = λ j c. ground (arith, owner j, owner t);
    held = λ j h. ground (arith, held j, owner t);
    same = λ h. ground (arith, same, owner t, middle t);
    middle = λ j. ground (arith, middle j, middle t, owner j, owner t, word);
    word = ground (arith, word, middle t);
    silent = ground (arith, silent, middle t);
  }

pub Reach-Inv : {n : ℕ} {s : System} → Reach true n init s → Inv n s
Reach-Inv here = record {
  owner = λ t c. cc;
  held = λ t h. cc;
  same = λ h. (refl, refl);
  middle = λ t. tt;
  word = (omega arith, omega arith, omega arith);
  silent = refl;
}
Reach-Inv (next r (pick t lt mv)) = Move-Inv (Reach-Inv r) t lt mv refl
Reach-Inv (next r stop) =
    let inv = Reach-Inv r in
    record {
      owner = inv.owner;
      held = inv.held;
      same = inv.same;
      middle = λ t. ground (arith, inv.middle t);
      word = inv.word;
      silent = inv.silent;
    }

lock_free :
    {n : ℕ} {s : System}
    → Inv n s
    → ((t : ℕ) → t < n → is_critical (s.pc t) ≡ false)
    → s.mem.lock ≡ none
lock_free {s} inv free = elim (Option-cases s.mem.lock) [
  | inl e ↦ e
  | inr (t, e) ↦ absurd (ground (arith, inv.held t e, free t))
]

-- With the mutex, whatever the schedule: two different values are never reported, and whenever no
-- thread is between the lock and the unlock, in particular when all have returned, var1, var2 and the
-- count of the work done are equal.
pub variables_equal :
    {n : ℕ} {s : System}
    → Reach true n init s
    → (s.mem.reports ≡ 0)
      × (((t : ℕ) → t < n → is_critical (s.pc t) ≡ false)
          → (s.mem.var1 ≡ s.mem.var2) × (s.mem.var3 ≡ s.mem.var2))
variables_equal {s} r = let inv = Reach-Inv r in (inv.silent, λ free. inv.same (lock_free inv free))
