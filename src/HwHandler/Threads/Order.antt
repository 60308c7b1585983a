-- ===== src/HwHandler/Threads/Order.antt =====
-- Which values the threads of src/15.lab_hw_handler_condvar.c write to the hardware.
use mathlib.Core.List.{append_assoc}
use qnx_box.Prelude.{ℕ, ◌≡◌, refl, ◌∙◌, List, [], ◌∷◌, ◌++◌}
use qnx_box.HwHandler.Threads.{
  Handler, writing, State, fetch, wake, Step, test_ready, test_stopped, writes, fetches, adds,
  drops, signals, signals_last, handler_enter, handler_leave, test_waits, sleeps, spurious,
  provider_enter, provider_leave, batch_ends, stop, init, Reach, here, next, asleep, handler_top,
  locking, dozing, fetching, handler_done,
}

-- The value that the handler has taken and not written yet.
abbrev pub in_hand : Handler → List ℕ
in_hand (writing v) = v ∷ []
in_hand _ = []

abbrev pub IsOrdered : State → Type 0
IsOrdered s = s.written ++ (in_hand s.handler ++ s.queue) ≡ s.added

in_hand-wake : (h : Handler) → in_hand (wake h) ≡ in_hand h
in_hand-wake asleep = refl
in_hand-wake handler_top = refl
in_hand-wake locking = refl
in_hand-wake dozing = refl
in_hand-wake (writing v) = refl
in_hand-wake fetching = refl
in_hand-wake handler_done = refl

fetch-IsOrdered :
    (q : List ℕ) (s : State)
    → s.queue ≡ q
    → in_hand s.handler ≡ []
    → IsOrdered s
    → IsOrdered (fetch q s)
fetch-IsOrdered [] s e h o = rw h at o
fetch-IsOrdered (v ∷ vs) s e h o = rw (h, e) at o

adds-IsOrdered :
    (w h q a : List ℕ) (v : ℕ) → w ++ (h ++ q) ≡ a → w ++ (h ++ (q ++ v ∷ [])) ≡ a ++ v ∷ []
adds-IsOrdered w h q a v o = rw (← o) (simp append_assoc)

Step-IsOrdered : {s t : State} → Step s t → IsOrdered s → IsOrdered t
Step-IsOrdered {s} (test_ready e r) o = fetch-IsOrdered s.queue s refl (rw e) o
Step-IsOrdered {s} (test_stopped e r) o = fetch-IsOrdered s.queue s refl (rw e) o
Step-IsOrdered {s} (fetches e) o = fetch-IsOrdered s.queue s refl (rw e) o
Step-IsOrdered {s} (writes {v} e) o = append_assoc s.written (v ∷ []) s.queue ∙ (rw e at o)
Step-IsOrdered {s} (adds v e free) o =
    adds-IsOrdered s.written (in_hand s.handler) s.queue s.added v o
Step-IsOrdered (drops e free) o = o
Step-IsOrdered {s} (signals e) o = rw (in_hand-wake s.handler) o
Step-IsOrdered {s} (signals_last e) o = rw (in_hand-wake s.handler) o
Step-IsOrdered (handler_enter e r) o = rw e at o
Step-IsOrdered (handler_leave e r) o = rw e at o
Step-IsOrdered (test_waits e d r) o = rw e at o
Step-IsOrdered (sleeps e) o = rw e at o
Step-IsOrdered (spurious e) o = rw e at o
Step-IsOrdered (provider_enter e r) o = o
Step-IsOrdered (provider_leave e r) o = o
Step-IsOrdered (batch_ends e) o = o
Step-IsOrdered stop o = o

-- In every reachable state the values written to the hardware, the one in the handler's hand and
-- those in the queue are together the values that were put into the queue, in the order in which they were added:
-- nothing is lost, doubled or reordered.
pub written_in_order : {s : State} → Reach init s → IsOrdered s
written_in_order here = refl
written_in_order (next r st) = Step-IsOrdered st (written_in_order r)
