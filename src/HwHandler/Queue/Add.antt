-- ===== src/HwHandler/Queue/Add.antt =====
-- `add_element_to_queue` of src/15.lab_hw_handler_condvar.c puts a new cell behind the others.
use mathlib.Core.Bool.{false≢true}
use qnx_box.Prelude.{
  ℕ, zero, suc, ◌%◌, ◌^◌, ◌≤◌, ◌<◌, ◌≡◌, refl, ◌≢◌, true, false, ◌||◌, none, some, [], ◌∷◌, ◌++◌,
  arith, ap, sym, ◌∙◌, ◌==◌, length, length-append,
}
use qnx_box.HwHandler.Heap.{
  Ptr, null, queue_node, Heap, write, ok, Cells, first, has, IsChain, read-ok, write_self, write-ne,
  IsChain-write, unused-not-has,
}
use qnx_box.HwHandler.Queue.{Globals, increment, find_end, link, add_element_to_queue, add_to_queue}

-- The globals hold the queue `xs`.
pub record IsQueue (s : Globals) (xs : Cells) : Type 0 where
  pub start : s.queue ≡ first xs
  pub chain : IsChain s.heap xs
  pub count : s.q_n_items ≡ length xs % 2 ^ 32

abbrev last_of : Ptr × ℕ → Cells → Ptr × ℕ
last_of c [] = c
last_of c (d ∷ xs) = last_of d xs

has-last_of : (c : Ptr × ℕ) (xs : Cells) → has (last_of c xs).0 (c ∷ xs) ≡ true
has-last_of (p, v) [] = ground arith
has-last_of (p, v) (d ∷ xs) = ground (arith, has-last_of d xs)

has-append : (a : Ptr) (xs ys : Cells) → has a (xs ++ ys) ≡ (has a xs || has a ys)
has-append a [] ys = refl
has-append a ((b, v) ∷ xs) ys = ground (arith, has-append a xs ys)

==-ne : (a b : ℕ) → a ≢ b → (a == b) ≡ false
==-ne a b ne = ground arith

has-ne : (a b : Ptr) (xs : Cells) → has a xs ≡ false → has b xs ≡ true → a ≢ b
has-ne a b xs out here e = false≢true (sym out ∙ ap (λ c. has c xs) e ∙ here)

find_end-last_of :
    (k : ℕ) (h : Heap) (c : Ptr × ℕ) (xs : Cells)
    → IsChain h (c ∷ xs)
    → length xs < k
    → find_end k h c.0 ≡ ok (last_of c xs).0
unfolding find_end
find_end-last_of zero h c xs chain lt = absurd (omega arith)
find_end-last_of (suc k) h (p, v) [] (ne, e, out, rest) lt = rw (read-ok h p v null ne e)
find_end-last_of (suc k) h (p, v) ((q, w) ∷ xs) (ne, e, out, rest) lt =
    rw (read-ok h p v q ne e) (ground (arith, find_end-last_of k h (q, w) xs rest (omega arith)))

link-last_of :
    (h : Heap) (a : Ptr) (c : Ptr × ℕ) (xs : Cells)
    → IsChain h (c ∷ xs)
    → link h (last_of c xs).0 a
      ≡ ok (write h (last_of c xs).0 (some (queue_node (last_of c xs).1 a)))
unfolding link
link-last_of h a (p, v) [] (ne, e, out, rest) = rw (read-ok h p v null ne e)
link-last_of h a c (d ∷ xs) (ne, e, out, rest) = link-last_of h a d xs rest

-- What linking a new cell behind the last one makes of a chain.
IsChain-snoc :
    (h g : Heap) (a : Ptr) (d : ℕ) (c : Ptr × ℕ) (xs : Cells)
    → IsChain h (c ∷ xs)
    → has a (c ∷ xs) ≡ false
    → a ≢ null
    → g a ≡ some (queue_node d null)
    → g (last_of c xs).0 ≡ some (queue_node (last_of c xs).1 a)
    → ((b : Ptr) → b ≢ (last_of c xs).0 → b ≢ a → g b ≡ h b)
    → IsChain g ((c ∷ xs) ++ (a, d) ∷ [])
IsChain-snoc h g a d (p, v) [] (ne, e, out, rest) new nonnull ga gl same =
    (ne, gl, ground arith, (nonnull, ga, refl, tt))
IsChain-snoc h g a d (p, v) ((q, w) ∷ xs) (ne, e, out, rest) new nonnull ga gl same = (
  ne,
  same p (has-ne p _ ((q, w) ∷ xs) out (has-last_of (q, w) xs)) (λ i. ground arith) ∙ e,
  ground (arith, has-append p ((q, w) ∷ xs) ((a, d) ∷ [])),
  IsChain-snoc h g a d (q, w) xs rest (ground arith) nonnull ga gl same,
)

-- The globals with a new cell behind the others.
abbrev pub after_add : Globals → Cells → Ptr → ℕ → Globals
after_add s [] a d = record s {
  heap = write s.heap a (some (queue_node d null));
  queue = a;
  q_n_items = increment s.q_n_items;
}
after_add s (c ∷ xs) a d = record s {
  heap =
      write (write s.heap a (some (queue_node d null))) (last_of c xs).0
        (some (queue_node (last_of c xs).1 a));
  q_n_items = increment s.q_n_items;
}

-- What `add_element_to_queue` does when malloc gives an unused address `a`: it returns 0, the queue
-- has the new cell at its end, and no other node of the heap has changed.
record Added (s : Globals) (xs : Cells) (a : Ptr) (d : ℕ) (fuel : ℕ) : Type 0 where
  after : Globals
  exact : after ≡ after_add s xs a d
  returns : add_element_to_queue fuel a d s ≡ ok (0, after)
  holds : IsQueue after (xs ++ (a, d) ∷ [])
  ready : after.data_ready ≡ s.data_ready
  others : (b : Ptr) → has b xs ≡ false → b ≢ a → after.heap b ≡ s.heap b

add-nil : (fuel : ℕ) (s : Globals) (a : Ptr) (d : ℕ) → IsQueue s [] → a ≢ null → Added s [] a d fuel
unfolding add_element_to_queue
add-nil fuel s a d q ne = record {
  after = record s {
    heap = write s.heap a (some (queue_node d null));
    queue = a;
    q_n_items = increment s.q_n_items;
  };
  exact = refl;
  returns = ground (arith, q.start);
  holds = record {
    start = refl;
    chain = (ne, ground arith, refl, tt);
    count = omega (arith, q.count);
  };
  ready = refl;
  others = λ b o n. ground arith;
}

module _ (fuel : ℕ) (s : Globals) (a : Ptr) (d : ℕ) (c : Ptr × ℕ) (xs : Cells)
    (q : IsQueue s (c ∷ xs)) (ne : a ≢ null) (unused : s.heap a ≡ none) where
  abbrev filled : Heap
  filled = write s.heap a (some (queue_node d null))

  new-not-has : has a (c ∷ xs) ≡ false
  new-not-has = unused-not-has s.heap a (c ∷ xs) unused q.chain

  filled-IsChain : IsChain filled (c ∷ xs)
  filled-IsChain = IsChain-write s.heap a (some (queue_node d null)) (c ∷ xs) new-not-has q.chain

  abbrev linked : Heap
  linked = write filled (last_of c xs).0 (some (queue_node (last_of c xs).1 a))

  last-ne : a ≢ (last_of c xs).0
  last-ne = has-ne a _ (c ∷ xs) new-not-has (has-last_of c xs)

  add-cons : length xs < fuel → Added s (c ∷ xs) a d fuel
  unfolding add_element_to_queue
  add-cons lt = record {
    after = record s { heap = linked; q_n_items = increment s.q_n_items };
    exact = refl;
    returns = rw (
      ==-ne a null ne,
      q.start,
      ==-ne c.0 null q.chain.0,
      find_end-last_of fuel filled c xs filled-IsChain lt,
      link-last_of filled a c xs filled-IsChain,
    );
    holds = record {
      start = q.start;
      chain =
          IsChain-snoc filled linked a d c xs filled-IsChain new-not-has ne
            (write-ne filled (last_of c xs).0 a _ last-ne ∙ write_self s.heap a _)
            (write_self filled (last_of c xs).0 _)
            (λ b nl na. write-ne filled (last_of c xs).0 b _ nl);
      count = omega (arith, q.count, length-append {0} (c ∷ xs) ((a, d) ∷ []));
    };
    ready = refl;
    others = λ b o n.
        write-ne filled (last_of c xs).0 b _ (has-ne b _ (c ∷ xs) o (has-last_of c xs))
        ∙ write-ne s.heap a b _ n;
  }

-- The two cases together.
add_lem :
    (fuel : ℕ) (s : Globals) (a : Ptr) (d : ℕ) (xs : Cells)
    → IsQueue s xs
    → a ≢ null
    → s.heap a ≡ none
    → length xs ≤ fuel
    → Added s xs a d fuel
add_lem fuel s a d [] q ne unused le = add-nil fuel s a d q ne
add_lem fuel s a d (c ∷ xs) q ne unused le = add-cons fuel s a d c xs q ne unused le

-- Given an unused address and enough fuel, `add_to_queue` appends the new cell to the queue, sets
-- `data_ready`, and changes no node outside the queue.
pub add_to_queue_lem :
    (fuel : ℕ) (s : Globals) (a : Ptr) (d : ℕ) (xs : Cells)
    → IsQueue s xs
    → a ≢ null
    → s.heap a ≡ none
    → length xs ≤ fuel
    → (t : Globals) × (add_to_queue fuel a d s ≡ ok t)
      × IsQueue t (xs ++ (a, d) ∷ [])
      × (t.data_ready ≡ true)
      × ((b : Ptr) → has b xs ≡ false → b ≢ a → t.heap b ≡ s.heap b)
unfolding add_to_queue
add_to_queue_lem fuel s a d xs q ne unused le =
    let r = add_lem fuel s a d xs q ne unused le in
    (
      record r.after { data_ready = true },
      rw r.returns,
      record { start = r.holds.start; chain = r.holds.chain; count = r.holds.count },
      refl,
      r.others,
    )

-- The same, with what the globals are then: they do not depend on the fuel.
pub add_to_queue_returns :
    (fuel : ℕ) (s : Globals) (a : Ptr) (d : ℕ) (xs : Cells)
    → IsQueue s xs
    → a ≢ null
    → s.heap a ≡ none
    → length xs ≤ fuel
    → add_to_queue fuel a d s ≡ ok (record (after_add s xs a d) { data_ready = true })
unfolding add_to_queue
add_to_queue_returns fuel s a d xs q ne unused le =
    let r = add_lem fuel s a d xs q ne unused le in rw (r.returns, r.exact)

-- Where malloc fails, `add_to_queue` sets `data_ready` and changes nothing else.
pub add_to_queue-null :
    (fuel : ℕ) (s : Globals) (d : ℕ)
    → add_to_queue fuel null d s ≡ ok (record s { data_ready = true })
unfolding add_to_queue add_element_to_queue
add_to_queue-null fuel s d = refl
