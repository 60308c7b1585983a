-- ===== src/Doubling/Doubled.antt =====
-- What the threads of src/09.lab_assignment_1.c have made of the array.
use qnx_box.Prelude.{ℕ, ◌*◌, ◌/◌, ◌≤◌, ◌<◌, ◌≡◌, refl, ltb, if◌then◌else◌, arith, update}
use qnx_box.Doubling.{
  thread_count, array_length, chunk_size, start_idx, end_idx, Pc, top, holding, finished, Move,
  read, write, finish, System, pick, Run, start, next, IsJoined,
}

-- The thread to whose part an index belongs.
abbrev pub owner : ℕ → ℕ
owner i = i / chunk_size

-- The first index of its part that a thread has not yet done.
abbrev pub done_to : ℕ → Pc → ℕ
done_to t (top i e) = i
done_to t (holding i e old) = i
done_to t finished = end_idx t

-- A thread is in its part, and has read what the loop before wrote there.
abbrev pub Place : ℕ → Pc → Type 0
Place t (top i e) = (start_idx t ≤ i) × (i ≤ e) × (e ≡ end_idx t)
Place t (holding i e old) = (start_idx t ≤ i) × (i < e) × (e ≡ end_idx t) × (old ≡ i)
Place t finished = Unit

-- The array is doubled up to where the thread that owns an index is.
pub record Inv (s : System) : Type 0 where
  pub place : (t : ℕ) → t < thread_count → Place t (s.pc t)
  pub cells :
      (i : ℕ)
      → i < array_length
      → s.array i ≡ (if ltb i (done_to (owner i) (s.pc (owner i))) then i * 2 else i)

Move-Inv :
    {s : System} {t : ℕ} {p p' : Pc} {array' : ℕ → ℕ}
    → Inv s
    → t < thread_count
    → Move t s.array p array' p'
    → s.pc t ≡ p
    → Inv (record { array = array'; pc = update s.pc t p' })
Move-Inv {s} {t} inv lt (read {i} small) e =
    let there : (t * 25 ≤ i) × (i < 100) = ground (arith, inv.place t lt) in
    let mine : owner i ≡ t = ground (arith, there, small, inv.place t lt) in
    record {
      place = λ j h. ground (arith, inv.place j h, inv.place t lt, inv.cells i there.1, mine);
      cells = λ i h. ground (arith, inv.cells i h);
    }
Move-Inv {s} {t} inv lt (write {i = j}) e = record {
  place = λ j h. ground (arith, inv.place j h, inv.place t lt);
  cells = λ i h. ground (arith, inv.cells i h, inv.place t lt);
}
Move-Inv {s} {t} inv lt (finish large) e = record {
  place = λ j h. ground (arith, inv.place j h);
  cells = λ i h. ground (arith, inv.cells i h, inv.place t lt);
}

pub Run-Inv : {k : ℕ} {s : System} → Run k s → Inv s
Run-Inv start = record {
  place = λ t h. (omega arith, omega arith, refl);
  cells = λ i h. ground arith;
}
Run-Inv (next r (pick t lt mv)) = Move-Inv (Run-Inv r) lt mv refl

-- When the four threads have returned, every element of the array is twice what it was, under every
-- order of their accesses: the same as doubling the array from end to end.
pub array_doubled :
    {k : ℕ} {s : System} → Run k s → IsJoined s → (i : ℕ) → i < array_length → s.array i ≡ i * 2
array_doubled r joined i h = ground (arith, (Run-Inv r).cells i h, joined (owner i))
