-- ===== src/HwHandler/Machine/Refinement.antt =====
-- The machine of src/15.lab_hw_handler_condvar.c does what its threads do over a list of values.
use mathlib.Core.Path.{subst}
use qnx_box.Prelude.{
  ℕ, suc, ◌+◌, ◌≡◌, refl, sym, ap, ◌∙◌, ◌≢◌, true, none, some, [], ◌∷◌, ◌++◌, arith, length,
}
use qnx_box.HwHandler.Heap.{Ptr, null, ok, crash, Cells}
use qnx_box.HwHandler.Queue.{Globals, add_to_queue, Removed, get_data_and_remove_from_queue}
use qnx_box.HwHandler.Queue.Add.{IsQueue, add_to_queue_lem, add_to_queue_returns, add_to_queue-null}
use qnx_box.HwHandler.Queue.Remove.{values, remove_cons, remove_nil, remove_returns}
use qnx_box.HwHandler.Queue.Fifo.{values-snoc}
use qnx_box.HwHandler.Threads
use qnx_box.HwHandler.Threads.{State, Handler, Provider, fetch, writing, signalling}
use qnx_box.HwHandler.Threads.Order.{IsOrdered, written_in_order}
use qnx_box.HwHandler.Machine.{Returns, Machine, after_get, Gets, Step, Reach, init, here, next}
use qnx_box.HwHandler.Machine

-- The machine with a list in place of its heap.
abbrev pub view : Machine → Cells → State
view m xs = record {
  queue = values xs;
  data_ready = m.globals.data_ready;
  running = m.running;
  handler = m.handler;
  provider = m.provider;
  added = m.added;
  written = m.written;
}

-- The queue on the heap holds the cells, and the view is a state of the threads.
pub record Shows (m : Machine) (xs : Cells) : Type 0 where
  pub queue : IsQueue m.globals xs
  pub reach : Threads.Reach Threads.init (view m xs)

ok-injective : {A : Type 0} {a b : A} → ok a ≡ ok b → a ≡ b
ok-injective e = cc

-- The handler's next value is the front of the list.
front_value :
    {m m' : Machine} (xs : Cells)
    → IsQueue m.globals xs
    → Gets m m'
    → (ys : Cells) × IsQueue m'.globals ys × (fetch (values xs) (view m xs) ≡ view m' ys)
front_value {m} {m'} [] q g =
    let (n, e) = g.returns in
    let r : g.removed ≡ record { value = none; printed = []; globals = m.globals } =
      ok-injective (sym (e n (omega arith)) ∙ remove_nil n g.box m.globals q) in
    let there : m' ≡ after_get m m.globals none =
      g.result ∙ ap (λ x. after_get m x.globals x.value) r in
    (
      [],
      subst (λ x. IsQueue x.globals []) (sym there)
          (record { start = q.start; chain = q.chain; count = q.count }),
      ap (λ x. view x []) (sym there),
    )
front_value {m} {m'} ((a, v) ∷ xs) q g =
    let (n, e) = g.returns in
    let (t, done, q', ready, _) =
      remove_cons (n + suc (length xs)) g.box m.globals a v xs q g.allocated (omega arith) in
    let r : g.removed ≡ record { value = some v; printed = values xs; globals = t } =
      ok-injective (sym (e (n + suc (length xs)) (omega arith)) ∙ done) in
    let there : m' ≡ after_get m t (some v) =
      g.result ∙ ap (λ x. after_get m x.globals x.value) r in
    (
      xs,
      subst (λ x. IsQueue x.globals xs) (sym there) q',
      ap (λ b. record (view m xs) { handler = writing v; data_ready = b }) (sym ready)
          ∙ ap (λ x. view x xs) (sym there),
    )

Gets-Shows :
    {m m' : Machine} (xs : Cells)
    → Shows m xs
    → Gets m m'
    → Threads.Step (view m xs) (fetch (values xs) (view m xs))
    → (ys : Cells) × Shows m' ys
Gets-Shows {m} xs s g st =
    let (ys, q, e) = front_value xs s.queue g in
    (
      ys,
      record { queue = q; reach = subst (Threads.Reach Threads.init) e (Threads.next s.reach st) },
    )

-- A step that leaves the globals alone.
control-Shows :
    {m m' : Machine} (xs : Cells)
    → Shows m xs
    → m'.globals ≡ m.globals
    → Threads.Step (view m xs) (view m' xs)
    → (ys : Cells) × Shows m' ys
control-Shows xs s e st = (
  xs,
  record { queue = subst (λ g. IsQueue g xs) (sym e) s.queue; reach = Threads.next s.reach st },
)

Step-Shows : {m m' : Machine} (xs : Cells) → Step m m' → Shows m xs → (ys : Cells) × Shows m' ys
Step-Shows xs (Machine.handler_enter h r) s = control-Shows xs s refl (Threads.handler_enter h r)
Step-Shows xs (Machine.handler_leave h r) s = control-Shows xs s refl (Threads.handler_leave h r)
Step-Shows xs (Machine.test_waits h d r) s = control-Shows xs s refl (Threads.test_waits h d r)
Step-Shows xs (Machine.test_ready h d g) s = Gets-Shows xs s g (Threads.test_ready h d)
Step-Shows xs (Machine.test_stopped h r g) s = Gets-Shows xs s g (Threads.test_stopped h r)
Step-Shows xs (Machine.sleeps h) s = control-Shows xs s refl (Threads.sleeps h)
Step-Shows xs (Machine.spurious h) s = control-Shows xs s refl (Threads.spurious h)
Step-Shows xs (Machine.writes h) s = control-Shows xs s refl (Threads.writes h)
Step-Shows xs (Machine.fetches h g) s = Gets-Shows xs s g (Threads.fetches h)
Step-Shows xs (Machine.provider_enter h r) s = control-Shows xs s refl (Threads.provider_enter h r)
Step-Shows xs (Machine.provider_leave h r) s = control-Shows xs s refl (Threads.provider_leave h r)
Step-Shows xs (Machine.signals h) s = control-Shows xs s refl (Threads.signals h)
Step-Shows xs (Machine.batch_ends h) s = control-Shows xs s refl (Threads.batch_ends h)
Step-Shows xs (Machine.signals_last h) s = control-Shows xs s refl (Threads.signals_last h)
Step-Shows xs Machine.stop s = control-Shows xs s refl Threads.stop
Step-Shows {m} xs (Machine.adds v a {g} h free ne unused (n, e)) s =
    let (t, done, q, ready, _) =
      add_to_queue_lem (n + length xs) m.globals a v xs s.queue ne unused (omega arith) in
    let same : g ≡ t = ok-injective (sym (e (n + length xs) (omega arith)) ∙ done) in
    let there : State = record (view m xs) { provider = signalling; added = m.added ++ v ∷ [] } in
    (
      xs ++ (a, v) ∷ [],
      record {
        queue = subst (λ x. IsQueue x (xs ++ (a, v) ∷ [])) (sym same) q;
        reach =
            subst (Threads.Reach Threads.init)
              (ap (λ l. record there { queue = l; data_ready = true }) (sym (values-snoc xs a v))
                ∙ ap (λ b. record there { queue = values (xs ++ (a, v) ∷ []); data_ready = b })
                    (sym ready)
                ∙ ap
                    (λ x. record there {
                      queue = values (xs ++ (a, v) ∷ []);
                      data_ready = x.data_ready;
                    })
                    (sym same))
              (Threads.next s.reach (Threads.adds v h free));
      },
    )
Step-Shows {m} xs (Machine.drops v {g} h free (n, e)) s =
    let same : record m.globals { data_ready = true } ≡ g =
      ok-injective (sym (add_to_queue-null n m.globals v) ∙ e n (omega arith)) in
    (
      xs,
      record {
        queue =
            subst (λ x. IsQueue x xs) same
              (record { start = s.queue.start; chain = s.queue.chain; count = s.queue.count });
        reach =
            subst (Threads.Reach Threads.init)
              (ap (λ x. view (record m { globals = x; provider = signalling }) xs) same)
              (Threads.next s.reach (Threads.drops h free));
      },
    )

init-Shows : Shows init []
init-Shows = record {
  queue = record { start = refl; chain = tt; count = refl };
  reach = Threads.here;
}

Reach-Shows : {m : Machine} → Reach init m → (xs : Cells) × Shows m xs
Reach-Shows here = ([], init-Shows)
Reach-Shows (next r st) = let (xs, s) = Reach-Shows r in Step-Shows xs st s

-- What the calls do that the threads make next: with memory they return, so that none follows a
-- pointer that is not valid; a node without memory is left out, with `data_ready` set; and the only
-- crash is the write to the `data` of a value that is taken without memory.
pub record CanGoOn (m : Machine) : Type 0 where
  pub gets :
      (box : Ptr)
      → box ≢ null
      → (r : Removed) × Returns (λ k. get_data_and_remove_from_queue k box m.globals) r
  pub puts :
      (v : ℕ) (new_node : Ptr)
      → new_node ≢ null
      → m.globals.heap new_node ≡ none
      → (g : Globals) × Returns (λ k. add_to_queue k new_node v m.globals) g
  pub drops :
      (v : ℕ)
      → Returns (λ k. add_to_queue k null v m.globals) (record m.globals { data_ready = true })
  pub finds_none :
      m.globals.queue ≡ null
      → Returns
          (λ k. get_data_and_remove_from_queue k null m.globals)
          (record { value = none; printed = []; globals = m.globals })
  pub crashes :
      m.globals.queue ≢ null → (k : ℕ) → get_data_and_remove_from_queue k null m.globals ≡ crash

gets_null :
    (k : ℕ) (g : Globals)
    → g.queue ≡ null
    → get_data_and_remove_from_queue k null g
      ≡ ok (record { value = none; printed = []; globals = g })
unfolding get_data_and_remove_from_queue
gets_null k g e = rw e

gets_crash :
    (k : ℕ) (g : Globals) → g.queue ≢ null → get_data_and_remove_from_queue k null g ≡ crash
unfolding get_data_and_remove_from_queue
gets_crash k g ne = ground arith

gets_return :
    (g : Globals) (xs : Cells) (box : Ptr)
    → IsQueue g xs
    → box ≢ null
    → (r : Removed) × Returns (λ k. get_data_and_remove_from_queue k box g) r
gets_return g [] box q ne = (_, (0, λ k le. remove_nil k box g q))
gets_return g ((a, v) ∷ xs) box q ne =
    (_, (suc (length xs), λ k le. remove_returns k box g a v xs q ne (omega arith)))

Shows-CanGoOn : (m : Machine) (xs : Cells) → IsQueue m.globals xs → CanGoOn m
Shows-CanGoOn m xs q = record {
  gets = λ box ne. gets_return m.globals xs box q ne;
  puts = λ v a ne unused.
      (_, (length xs, λ k le. add_to_queue_returns k m.globals a v xs q ne unused le));
  drops = λ v. (0, λ k le. add_to_queue-null k m.globals v);
  finds_none = λ e. (0, λ k le. gets_null k m.globals e);
  crashes = λ ne k. gets_crash k m.globals ne;
}

-- In every reachable state of the machine over the heap, whether or not malloc fails for the nodes,
-- with the addresses that it gives not in use: the heap holds a queue; with the values of the queue in place of it, the state
-- is one that the threads reach over a list; the values written to the hardware, the one in the
-- handler's hand and the queue are together the values put into the queue, in order, none lost and
-- none twice; the calls of `get_data_and_remove_from_queue` and `add_to_queue` that can come next
-- return where malloc succeeds; where it fails for a node, `add_to_queue` sets `data_ready` and
-- nothing else; and where it fails for `data`, the call crashes if the queue holds a value, and
-- otherwise returns NULL. Behind the crash there is no state.
pub machine_refines :
    {m : Machine}
    → Reach init m
    → (xs : Cells) × IsQueue m.globals xs
      × Threads.Reach Threads.init (view m xs)
      × IsOrdered (view m xs)
      × CanGoOn m
machine_refines {m} r =
    let (xs, s) = Reach-Shows r in
    (xs, s.queue, s.reach, written_in_order s.reach, Shows-CanGoOn m xs s.queue)
