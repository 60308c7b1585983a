-- ===== src/HwHandler/Queue/Fifo.antt =====
-- The queue functions of src/15.lab_hw_handler_condvar.c implement a first-in first-out queue. Each
-- of them runs under the mutex, so whatever the two threads do is a sequence of these operations.
use qnx_box.Prelude.{
  ℕ, ◌+◌, ◌<◌, ◌≡◌, refl, ◌≢◌, ◌∙◌, ap, Option, none, some, List, [], ◌∷◌, ◌++◌, arith, length,
  length-append,
}
use qnx_box.HwHandler.Heap.{Ptr, null, Result, ok, ◌>>=◌, Cells}
use qnx_box.HwHandler.Queue.{Globals, add_to_queue, Removed, get_data_and_remove_from_queue}
use qnx_box.HwHandler.Queue.Add.{IsQueue, add_to_queue_lem}
use qnx_box.HwHandler.Queue.Remove.{values, remove_cons, remove_nil}

-- The operations, with what malloc gives them.
pub data Op : Type 0 where
  add : (new_node : Ptr) → (value : ℕ) → Op
  get : (box : Ptr) → Op

-- The values that the `get` operations return, and the globals at the end.
unfoldable pub exec : ℕ → List Op → Globals → Result (List (Option ℕ) × Globals)
exec fuel [] s = ok ([], s)
exec fuel (add a d ∷ ops) s = add_to_queue fuel a d s >>= exec fuel ops
exec fuel (get box ∷ ops) s = do
  r ← get_data_and_remove_from_queue fuel box s
  (out, s') ← exec fuel ops r.globals
  ok (r.value ∷ out, s')

-- The specification: a list of values.
unfoldable pub spec : List Op → List ℕ → List (Option ℕ)
spec [] vs = []
spec (add a d ∷ ops) vs = spec ops (vs ++ d ∷ [])
spec (get box ∷ ops) [] = none ∷ spec ops []
spec (get box ∷ ops) (v ∷ vs) = some v ∷ spec ops vs

unfoldable pub spec_left : List Op → List ℕ → List ℕ
spec_left [] vs = vs
spec_left (add a d ∷ ops) vs = spec_left ops (vs ++ d ∷ [])
spec_left (get box ∷ ops) [] = spec_left ops []
spec_left (get box ∷ ops) (v ∷ vs) = spec_left ops vs

-- malloc never fails, and gives addresses that are not in use at the time.
abbrev pub IsSupplied : ℕ → List Op → Globals → Type 0
IsSupplied fuel [] s = Unit
IsSupplied fuel (add a d ∷ ops) s =
    (a ≢ null)
    × (s.heap a ≡ none)
    × ((t : Globals) → add_to_queue fuel a d s ≡ ok t → IsSupplied fuel ops t)
IsSupplied fuel (get box ∷ ops) s =
    (box ≢ null)
    × ((r : Removed)
        → get_data_and_remove_from_queue fuel box s ≡ ok r
        → IsSupplied fuel ops r.globals)

pub values-snoc : (xs : Cells) (a d : ℕ) → values (xs ++ (a, d) ∷ []) ≡ values xs ++ d ∷ []
values-snoc [] a d = refl
values-snoc ((b, v) ∷ xs) a d = ap (◌∷◌ v) (values-snoc xs a d)

-- The outcome of a sequence of operations on the queue `xs`.
abbrev pub Serves : ℕ → List Op → Globals → Cells → Type 0
Serves fuel ops s xs =
    (t : Globals) × (ys : Cells) × (exec fuel ops s ≡ ok (spec ops (values xs), t))
    × IsQueue t ys
    × (values ys ≡ spec_left ops (values xs))

-- On any sequence of operations, with memory and enough fuel, the code returns what a list with
-- insertion at the end and removal at the front returns, and its queue at the end is that list.
pub exec_lem :
    (fuel : ℕ) (ops : List Op) (s : Globals) (xs : Cells)
    → IsQueue s xs
    → IsSupplied fuel ops s
    → length xs + length ops < fuel
    → Serves fuel ops s xs
unfolding exec spec spec_left
exec_lem fuel [] s xs q sup lt = (s, xs, refl, q, refl)
exec_lem fuel (add a d ∷ ops) s xs q (ne, unused, rest) lt =
    let (t, done, q', _, _) = add_to_queue_lem fuel s a d xs q ne unused (omega arith) in
    let (u, ys, e, qu, left) =
      exec_lem fuel ops t (xs ++ (a, d) ∷ []) q' (rest t done)
        (omega (arith, length-append {0} xs ((a, d) ∷ []))) in
    (
      u,
      ys,
      rw done (e ∙ ap (λ vs. ok (spec ops vs, u)) (values-snoc xs a d)),
      qu,
      left ∙ ap (spec_left ops) (values-snoc xs a d),
    )
exec_lem fuel (get box ∷ ops) s [] q (ne, rest) lt =
    let done = remove_nil fuel box s q in
    let (u, ys, e, qu, left) = exec_lem fuel ops s [] q (rest _ done) (omega arith) in
    (u, ys, rw (done, e), qu, left)
exec_lem fuel (get box ∷ ops) s ((a, v) ∷ xs) q (ne, rest) lt =
    let (t, done, q', _, _) = remove_cons fuel box s a v xs q ne (omega arith) in
    let (u, ys, e, qu, left) = exec_lem fuel ops t xs q' (rest _ done) (omega arith) in
    (u, ys, rw (done, e), qu, left)
