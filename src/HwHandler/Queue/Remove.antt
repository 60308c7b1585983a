-- ===== src/HwHandler/Queue/Remove.antt =====
-- `get_data_and_remove_from_queue` of src/15.lab_hw_handler_condvar.c takes the first cell.
use qnx_box.Prelude.{
  ℕ, zero, suc, ◌<◌, ◌≡◌, refl, ◌≢◌, false, none, some, List, [], ◌∷◌, arith, ◌==◌, length,
}
use qnx_box.HwHandler.Heap.{
  Ptr, null, Heap, write, ok, Cells, first, IsChain, read-ok, IsChain-write,
}
use qnx_box.HwHandler.Queue.{Globals, decrement, print_queue, get_data_and_remove_from_queue}
use qnx_box.HwHandler.Queue.Add.{IsQueue}

abbrev pub values : Cells → List ℕ
values [] = []
values ((_, v) ∷ xs) = v ∷ values xs

==-null : (a : ℕ) → a ≢ null → (a == null) ≡ false
==-null a ne = ground arith

-- `print_queue` prints the values of the queue in order, given enough fuel.
pub print_queue-values :
    (k : ℕ) (h : Heap) (xs : Cells)
    → IsChain h xs
    → length xs < k
    → print_queue k h (first xs) ≡ ok (values xs)
unfolding print_queue
print_queue-values zero h xs chain lt = absurd (omega arith)
print_queue-values (suc k) h [] chain lt = refl
print_queue-values (suc k) h ((a, v) ∷ xs) (ne, e, out, rest) lt =
    rw (==-null a ne, read-ok h a v (first xs) ne e, print_queue-values k h xs rest (omega arith))

-- The globals without the first cell.
abbrev pub after_remove : Globals → Ptr → Cells → Globals
after_remove s a xs = record s {
  heap = write s.heap a none;
  queue = first xs;
  q_n_items = decrement s.q_n_items;
}

-- From a queue that is not empty, and with a box for the value, the function returns the first value
-- and prints the rest; what the globals are then does not depend on the fuel.
pub remove_returns :
    (fuel : ℕ) (box : Ptr) (s : Globals) (a v : ℕ) (xs : Cells)
    → IsQueue s ((a, v) ∷ xs)
    → box ≢ null
    → length xs < fuel
    → get_data_and_remove_from_queue fuel box s
      ≡ ok (record { value = some v; printed = values xs; globals = after_remove s a xs })
unfolding get_data_and_remove_from_queue
remove_returns fuel box s a v xs q ne lt =
    let (na, e, out, rest) = q.chain in
    rw (
      q.start,
      ==-null a na,
      ==-null box ne,
      read-ok s.heap a v (first xs) na e,
      print_queue-values fuel (write s.heap a none) xs (IsChain-write s.heap a none xs out rest) lt,
    )

-- It frees the node of that value and nothing else, and leaves the rest as the queue.
pub remove_cons :
    (fuel : ℕ) (box : Ptr) (s : Globals) (a v : ℕ) (xs : Cells)
    → IsQueue s ((a, v) ∷ xs)
    → box ≢ null
    → length xs < fuel
    → (t : Globals) × (get_data_and_remove_from_queue fuel box s
        ≡ ok (record { value = some v; printed = values xs; globals = t }))
      × IsQueue t xs
      × (t.data_ready ≡ s.data_ready)
      × ((b : Ptr) → t.heap b ≡ write s.heap a none b)
remove_cons fuel box s a v xs q ne lt =
    let (na, e, out, rest) = q.chain in
    (
      after_remove s a xs,
      remove_returns fuel box s a v xs q ne lt,
      record {
        start = refl;
        chain = IsChain-write s.heap a none xs out rest;
        count = omega (arith, q.count);
      },
      refl,
      λ b. refl,
    )

-- From an empty queue it returns NULL and changes nothing.
pub remove_nil :
    (fuel : ℕ) (box : Ptr) (s : Globals)
    → IsQueue s []
    → get_data_and_remove_from_queue fuel box s
      ≡ ok (record { value = none; printed = []; globals = s })
unfolding get_data_and_remove_from_queue
remove_nil fuel box s q = rw q.start
