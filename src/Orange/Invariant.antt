-- ===== src/Orange/Invariant.antt =====
-- What every step of the threads of src/12.orange_problem.c keeps under the mutex.
use qnx_box.Prelude.{
  ℕ, ◌+◌, ◌*◌, ◌%◌, ◌≤◌, ◌<◌, ◌≡◌, Bool, true, false, ◌&&◌, none, some, leb, ltb, if◌then◌else◌,
  arith, update, weigh, weigh-update, weigh-bound,
}
use qnx_box.Orange.{
  work_per_thread, alloc_size, is_exhausted, Pc, top, inside, chosen, leaving, filling, holding,
  finished, failed, Shared, System,
}

-- The cells that a thread has claimed.
abbrev pub claimed : Pc → ℕ
claimed (top d) = d
claimed (inside d) = d
claimed (chosen d _) = d
claimed (leaving d none) = d
claimed (leaving d (some _)) = d + alloc_size
claimed (filling d _ _) = d
claimed (holding d _ _ _) = d
claimed finished = work_per_thread
claimed failed = 0

-- Whole chunks, and no more than a thread's share; no thread is refused a chunk.
abbrev pub IsInRange : Pc → Type 0
IsInRange (top d) = (d ≤ 250) × (d % 25 ≡ 0)
IsInRange (inside d) = (d < 250) × (d % 25 ≡ 0)
IsInRange (chosen d _) = (d < 250) × (d % 25 ≡ 0)
IsInRange (leaving d none) = ⊥
IsInRange (leaving d (some _)) = (d < 250) × (d % 25 ≡ 0)
IsInRange (filling d _ _) = (d ≤ 250) × (d % 25 ≡ 0)
IsInRange (holding d _ i _) = (d ≤ 250) × (d % 25 ≡ 0) × (i < 25)
IsInRange finished = Unit
IsInRange failed = ⊥

abbrev pub is_critical : Pc → Bool
is_critical (inside _) = true
is_critical (chosen _ _) = true
is_critical (leaving _ _) = true
is_critical _ = false

-- 1 for a cell of the thread's chunk that it has yet to write, from the cell `from` on.
abbrev pub within : ℕ → ℕ → ℕ → ℕ
within from stop k = if leb from k && ltb k stop then 1 else 0

abbrev pub pending : ℕ → Pc → ℕ
pending k (leaving d (some a)) = within a (a + 25) k
pending k (filling d a i) = within (a + i) (a + 25) k
pending k (holding d a i _) = within (a + i) (a + 25) k
pending k _ = 0

-- What a thread read of the shared memory is still so.
abbrev pub IsFresh : Shared → Pc → Type 0
IsFresh m (chosen _ a) = m.allocated ≡ a
IsFresh m (holding _ _ _ v) = v ≡ 0
IsFresh m _ = Unit

-- Under the mutex: a thread in the critical section is the owner, an owner is in the critical
-- section, the claims add up to `allocated`, and each allocated cell is either 1 or still to be written
-- by one thread; the others are 0.
pub record Inv (n : ℕ) (s : System) : Type 0 where
  pub range : (t : ℕ) → IsInRange (s.pc t)
  pub owner : (t : ℕ) → is_critical (s.pc t) ≡ true → s.mem.lock ≡ some t
  pub held : (t : ℕ) → s.mem.lock ≡ some t → (is_critical (s.pc t) ≡ true) × (t < n)
  pub fresh : (t : ℕ) → IsFresh s.mem (s.pc t)
  pub counts : s.mem.allocated ≡ weigh claimed n s.pc
  pub cells :
      (k : ℕ) → s.mem.array k + weigh (pending k) n s.pc ≡ (if ltb k s.mem.allocated then 1 else 0)

claimed-le : (p : Pc) → IsInRange p → claimed p ≤ 250
claimed-le (leaving d none) h = absurd h
claimed-le (leaving d (some a)) h = omega arith
claimed-le finished h = omega arith
claimed-le failed h = absurd h
claimed-le (top d) h = omega arith
claimed-le (inside d) h = omega arith
claimed-le (chosen d a) h = omega arith
claimed-le (filling d a i) h = omega arith
claimed-le (holding d a i v) h = omega arith

module _ {n : ℕ} {s : System} (inv : Inv n s) (few : n ≤ 4) where
  open inv use {range, counts}

  pub allocated-le : s.mem.allocated ≤ n * 250
  allocated-le =
      omega (arith, counts, weigh-bound claimed 250 n s.pc (λ i p. claimed-le (s.pc i) (range i)))

  -- A thread that has not done its share finds a chunk.
  pub not_exhausted : (t d : ℕ) → t < n → s.pc t ≡ inside d → is_exhausted s.mem.allocated ≡ false
  not_exhausted t d lt e =
      let whole =
        weigh-bound claimed 250 n (update s.pc t finished)
          (λ i p. ground (arith, claimed-le (s.pc i) (range i))) in
      ground (arith, whole, range t, counts, weigh-update claimed n s.pc t finished lt)
