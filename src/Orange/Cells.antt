-- ===== src/Orange/Cells.antt =====
-- With the mutex the threads of src/12.orange_problem.c fill the array once.
use qnx_box.Prelude.{
  ℕ, ◌+◌, ◌*◌, ◌≤◌, ◌<◌, ◌≡◌, refl, ap, ◌≢◌, true, ltb, if◌then◌else◌, ◌==◌, Bool-cases, inl, inr,
  arith, update, weigh-update, weigh-const, weigh-le,
}
use qnx_box.Orange.{
  work_per_thread, array_size, number_of_threads, Pc, top, holding, finished, failed, Shared, Move,
  acquire, walk_in, refuse, walk_out, release_null, walk_out_null, load, store, chunk_done, finish,
  System, pick, Run, start, next, IsJoined,
}
use qnx_box.Orange.Invariant.{claimed, pending, Inv, allocated-le, not_exhausted}

-- Two threads that had a cell to write would be counted twice.
pending_alone :
    {n : ℕ} {s : System}
    → Inv n s
    → (t u i : ℕ) → t < n
    → u < n
    → pending i (s.pc t) ≡ 1
    → pending i (s.pc u) ≡ 1
    → t ≡ u
pending_alone {n} {s} inv t u i lt lu pt pu = elim (Bool-cases (t == u)) [
  | inl e ↦ ground arith
  | inr ne ↦ absurd (
      ground (
        arith,
        inv.cells i,
        weigh-update (pending i) n s.pc t finished lt,
        weigh-le (pending i) n (update s.pc t finished) u lu,
      ))
]

module _ {n : ℕ} {s : System} (inv : Inv n s) (few : n ≤ 4) (t : ℕ) (lt : t < n) where
  open inv use {range, owner, held, fresh, counts, cells}

  -- A cell that a thread has yet to write is 0, and allocated.
  pub pending_cell : (k : ℕ) → pending k (s.pc t) ≡ 1 → (s.mem.array k ≡ 0) × (k < s.mem.allocated)
  pending_cell k p = (
    ground (arith, cells k, weigh-le (pending k) n s.pc t lt),
    ground (arith, cells k, weigh-le (pending k) n s.pc t lt),
  )

  Move-Inv :
      {p p' : Pc} {m' : Shared}
      → Move true t s.mem p m' p'
      → s.pc t ≡ p
      → Inv n (record { mem = m'; pc = update s.pc t p' })
  Move-Inv (walk_in f u) e = absurd (ground arith)
  Move-Inv (walk_out f) e = absurd (ground arith)
  Move-Inv (walk_out_null f) e = absurd (ground arith)
  Move-Inv (release_null u) e = absurd (ground (arith, range t))
  Move-Inv {p'} (refuse {d} x) e = absurd (ground (arith, not_exhausted inv few t d lt e))
  Move-Inv {p'} (load {d} {a} {i} small) e = record {
    range = λ j. ground (arith, range j, range t);
    owner = λ j c. ground (arith, owner j);
    held = λ j h. ground (arith, held j);
    fresh = λ j. ground (arith, fresh j, pending_cell (a + i));
    counts = ground (arith, counts, weigh-update claimed n s.pc t p');
    cells = λ k. ground (arith, cells k, weigh-update (pending k) n s.pc t p');
  }
  Move-Inv {p'} (store {d} {a} {i} {v}) e = record {
    range = λ j. ground (arith, range j, range t);
    owner = λ j c. ground (arith, owner j);
    held = λ j h. ground (arith, held j);
    fresh = λ j. ground (arith, fresh j);
    counts = ground (arith, counts, weigh-update claimed n s.pc t p');
    cells = λ k.
        ground
          (arith, cells k, range t, fresh t, pending_cell k, weigh-update (pending k) n s.pc t p');
  }
  Move-Inv {p'} (acquire u i free) e = record {
    range = λ j. ground (arith, range j);
    owner = λ j c. ground (arith, owner j);
    held = λ j h. ground (arith, held j);
    fresh = λ j. ground (arith, fresh j);
    counts = ground (arith, counts, range t, weigh-update claimed n s.pc t p');
    cells = λ k. ground (arith, cells k, weigh-update (pending k) n s.pc t p');
  }
  Move-Inv {p'} (finish stop) e = record {
    range = λ j. ground (arith, range j);
    owner = λ j c. ground (arith, owner j);
    held = λ j h. ground (arith, held j);
    fresh = λ j. ground (arith, fresh j);
    counts = ground (arith, counts, range t, weigh-update claimed n s.pc t p');
    cells = λ k. ground (arith, cells k, weigh-update (pending k) n s.pc t p');
  }
  Move-Inv {p'} (chunk_done stop) e = record {
    range = λ j. ground (arith, range j);
    owner = λ j c. ground (arith, owner j);
    held = λ j h. ground (arith, held j);
    fresh = λ j. ground (arith, fresh j);
    counts = ground (arith, counts, range t, weigh-update claimed n s.pc t p');
    cells = λ k. ground (arith, cells k, weigh-update (pending k) n s.pc t p');
  }
  Move-Inv {p'} mv e = record {
    range = λ j. ground (arith, range j, range t);
    owner = λ j c. ground (arith, owner j, owner t);
    held = λ j h. ground (arith, held j, owner t);
    fresh = λ j. ground (arith, fresh j, owner j, owner t);
    counts = ground (arith, counts, range t, fresh t, weigh-update claimed n s.pc t p');
    cells = λ k. ground (arith, cells k, fresh t, weigh-update (pending k) n s.pc t p');
  }

pub Run-Inv : {n k : ℕ} {s : System} → n ≤ 4 → Run true n k s → Inv n s
Run-Inv {n} few start = record {
  range = λ t. (omega arith, omega arith);
  owner = λ t c. cc;
  held = λ t h. cc;
  fresh = λ t. tt;
  counts = omega (arith, weigh-const claimed 0 n (λ _. top 0) (λ i lt. refl));
  cells = λ k. ground (arith, weigh-const (pending k) 0 n (λ _. top 0) (λ i lt. refl));
}
Run-Inv few (next r (pick t lt mv)) = Move-Inv (Run-Inv few r) few t lt mv refl

-- With the mutex, whatever the schedule of at most four threads: once all have returned, the first 250
-- cells for each thread are 1 and the others 0, and all of those 250 are allocated.
pub array_filled_once :
    {n k : ℕ} {s : System}
    → n ≤ number_of_threads
    → Run true n k s
    → IsJoined n s
    → (s.mem.allocated ≡ n * work_per_thread)
      × ((i : ℕ) → s.mem.array i ≡ (if ltb i (n * work_per_thread) then 1 else 0))
array_filled_once {n} {s} few r joined =
    let inv = Run-Inv few r in
    let share = weigh-const claimed 250 n s.pc (λ t lt. ap claimed (joined t lt)) in
    (
      omega (arith, inv.counts, share),
      λ i. ground (
        arith,
        inv.cells i,
        inv.counts,
        share,
        weigh-const (pending i) 0 n s.pc (λ t lt. ap (pending i) (joined t lt)),
      ),
    )

-- With the mutex, at any time: no thread is refused a chunk, every access is to a cell of the array,
-- and two threads never work on the same cell.
pub chunks_disjoint :
    {n k : ℕ} {s : System}
    → n ≤ number_of_threads
    → Run true n k s
    → (t : ℕ) → t < n
    → (s.pc t ≢ failed)
      × ((d a i v : ℕ) → s.pc t ≡ holding d a i v → a + i < array_size)
      × ((u i : ℕ) → u < n → pending i (s.pc t) ≡ 1 → pending i (s.pc u) ≡ 1 → t ≡ u)
chunks_disjoint {n} {s} few r t lt =
    let inv = Run-Inv few r in
    (
      (λ e. ground (arith, inv.range t)),
      (λ d a i v e.
          ground (arith, inv.range t, allocated-le inv few, pending_cell inv few t lt (a + i))),
      λ u i lu pt pu. pending_alone inv t u i lt lu pt pu,
    )
