-- ===== src/HwHandler/Tests.antt =====
-- The queue of src/15.lab_hw_handler_condvar.c at concrete operations.
use qnx_box.Prelude.{◌≡◌, ◌≢◌, refl, true, false, none, some, List, [], ◌∷◌, arith}
use qnx_box.HwHandler.Heap.{null, Cells}
use qnx_box.HwHandler.Queue.{Globals, add_to_queue, get_data_and_remove_from_queue}
use qnx_box.HwHandler.Queue.Add.{IsQueue, after_add, add_to_queue_returns}
use qnx_box.HwHandler.Queue.Remove.{after_remove, remove_returns}
use qnx_box.HwHandler.Machine.{Machine, Returns}
use qnx_box.HwHandler.Machine
use qnx_box.HwHandler.Machine.Refinement.{view, CanGoOn, machine_refines}
use qnx_box.HwHandler.Threads
use qnx_box.HwHandler.Threads.{
  dozing, handler_top, asleep, signalling, handler_done, handler_enter, test_waits, sleeps,
  provider_enter, provider_leave, adds, signals_last, stop, State, Reach, here, next,
}
use qnx_box.HwHandler.Threads.Order.{IsOrdered}
use qnx_box.HwHandler.Queue.Fifo.{Op, add, get, spec, Serves, exec_lem}

-- The state before the threads start.
abbrev at_start : Globals
at_start = record { heap = λ _. none; queue = null; q_n_items = 0; data_ready = false }

at_start-IsQueue : IsQueue at_start []
at_start-IsQueue = record { start = refl; chain = tt; count = refl }

abbrev batch : List Op
batch = add 1 300 ∷ add 2 301 ∷ get 9 ∷ add 3 302 ∷ get 9 ∷ get 9 ∷ get 9 ∷ []

batch_outputs : spec batch [] ≡ some 300 ∷ some 301 ∷ some 302 ∷ none ∷ []
unfolding spec
batch_outputs = refl

exec_lem_example : Serves 10 (add 1 300 ∷ get 9 ∷ []) at_start []
unfolding add_to_queue get_data_and_remove_from_queue
exec_lem_example =
    exec_lem 10 (add 1 300 ∷ get 9 ∷ []) at_start [] at_start-IsQueue
      ((omega arith, refl, λ t e. (omega arith, λ r f. tt))) (omega arith)

asleep-ne : asleep ≢ dozing
asleep-ne e = cc

-- The handler sleeps and the provider has added a value.
abbrev sleeping : (s : State) × Reach Threads.init s
sleeping = (
  _,
  next
      (next
        (next (next (next here (handler_enter refl refl)) (test_waits refl refl refl))
          (sleeps refl))
        (provider_enter refl refl))
      (adds 300 refl asleep-ne),
)

-- The test is made before the stop, and the last signal before the handler falls asleep.
abbrev too_late : (s : State) × Reach Threads.init s
too_late = (
  _,
  next
      (next (next (next (next here (handler_enter refl refl)) (test_waits refl refl refl)) stop)
        (provider_leave refl refl))
      (signals_last refl),
)

top-ne : handler_top ≢ dozing
top-ne e = cc

-- One value is added at the address 1, taken, and written to the hardware.
abbrev one_queued : Globals
one_queued = record (after_add at_start [] 1 300) { data_ready = true }

one_added : Returns (λ k. add_to_queue k 1 300 at_start) one_queued
one_added =
    (0, λ k le. add_to_queue_returns k at_start 1 300 [] at_start-IsQueue (omega arith) refl le)

one_queued-IsQueue : IsQueue one_queued ((1, 300) ∷ [])
one_queued-IsQueue = record {
  start = refl;
  chain = ((λ e. omega arith), refl, refl, tt);
  count = refl;
}

abbrev one_written : (m : Machine) × Machine.Reach Machine.init m
one_written = (
  _,
  Machine.next
      (Machine.next
        (Machine.next
          (Machine.next (Machine.next Machine.here (Machine.provider_enter refl refl))
            (Machine.adds 300 1 refl top-ne (λ e. omega arith) refl one_added))
          (Machine.handler_enter refl refl))
        (Machine.test_ready refl refl (record {
          box = 9;
          allocated = λ e. omega arith;
          removed = record {
            value = some 300;
            printed = [];
            globals = after_remove one_queued 1 [];
          };
          returns = (
            1,
            λ k le.
                remove_returns k 9 one_queued 1 300 [] one_queued-IsQueue (λ e. omega arith)
                  (omega arith),
          );
          result = refl;
        })))
      (Machine.writes refl),
)

machine_refines_example :
    (xs : Cells) × IsQueue one_written.0.globals xs
    × Reach Threads.init (view one_written.0 xs)
    × IsOrdered (view one_written.0 xs)
    × CanGoOn one_written.0
machine_refines_example = machine_refines one_written.1
