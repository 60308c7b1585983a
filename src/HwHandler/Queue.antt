-- ===== src/HwHandler/Queue.antt =====
-- The queue functions of src/15.lab_hw_handler_condvar.c. `malloc` is an input: the address that it
-- gives, NULL where it fails. The counter `q_n_items` is an int, kept as its 32-bit pattern.
pub mod Add
pub mod Fifo
pub mod Remove
use qnx_box.Prelude.{
  ℕ, zero, suc, ◌+◌, ◌-◌, ◌%◌, ◌^◌, Bool, true, false, Option, none, some, List, [], ◌∷◌, ◌==◌,
  if◌then◌else◌,
}
use qnx_box.HwHandler.Heap.{
  Ptr, null, QueueNode, queue_node, Heap, write, Result, ok, crash, out_of_fuel, ◌>>=◌, read,
}

-- The globals that belong to the queue, and the heap.
pub record Globals : Type 0 where
  pub heap : Heap
  pub queue : Ptr
  pub q_n_items : ℕ
  pub data_ready : Bool

abbrev pub increment : ℕ → ℕ
increment n = (n + 1) % 2 ^ 32

abbrev pub decrement : ℕ → ℕ
decrement n = (n + 2 ^ 32 - 1) % 2 ^ 32

-- `while (end_of_queue->next) end_of_queue = end_of_queue->next;`
unfoldable pub find_end : ℕ → Heap → Ptr → Result Ptr
find_end zero h p = out_of_fuel
find_end (suc k) h p = do
  n ← read h p
  let rest = find_end k h n.next
  if n.next == null then ok p else rest

-- `end->next = new_node`
unfoldable pub link : Heap → Ptr → Ptr → Result Heap
link h end new_node = do n ← read h end; ok (write h end (some (record n { next = new_node })))

-- The new node is filled in before the walk; the result is what the function returns.
unfoldable pub add_element_to_queue : ℕ → Ptr → ℕ → Globals → Result (ℕ × Globals)
unfolding find_end link
add_element_to_queue fuel new_node value s =
    let h = write s.heap new_node (some (queue_node value null)) in
    if new_node == null
    then ok (1, s)
    else if s.queue == null
    then ok (0, record s { heap = h; queue = new_node; q_n_items = increment s.q_n_items })
    else (do
      end ← find_end fuel h s.queue
      h' ← link h end new_node
      ok (0, record s { heap = h'; q_n_items = increment s.q_n_items }))

-- The critical section of `add_to_queue`, which does not look at what was returned.
unfoldable pub add_to_queue : ℕ → Ptr → ℕ → Globals → Result Globals
unfolding add_element_to_queue
add_to_queue fuel new_node value s = do
  (_, s') ← add_element_to_queue fuel new_node value s
  ok (record s' { data_ready = true })

-- The values that are printed.
unfoldable pub print_queue : ℕ → Heap → Ptr → Result (List ℕ)
print_queue zero h p = out_of_fuel
print_queue (suc k) h p =
    if p == null then ok [] else do n ← read h p; rest ← print_queue k h n.next; ok (n.value ∷ rest)

-- What `get_data_and_remove_from_queue` returns: the value that `data` points to, or NULL; with the
-- values that it prints and the new globals.
pub record Removed : Type 0 where
  pub value : Option ℕ
  pub printed : List ℕ
  pub globals : Globals

-- `box` is the address that malloc gives for `data`. It is not tested before the write to it.
unfoldable pub get_data_and_remove_from_queue : ℕ → Ptr → Globals → Result Removed
unfolding print_queue
get_data_and_remove_from_queue fuel box s =
    if s.queue == null
    then ok (record { value = none; printed = []; globals = s })
    else if box == null
    then crash
    else (do
      n ← read s.heap s.queue
      let h = write s.heap s.queue none
      printed ← print_queue fuel h n.next
      ok (record {
        value = some n.value;
        printed = printed;
        globals = record s { heap = h; queue = n.next; q_n_items = decrement s.q_n_items };
      }))
