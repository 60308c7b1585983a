-- ===== src/ThreadTerm/Tests.antt =====
-- The threads of src/08.lab_thread_term.c at concrete turns.
use qnx_box.Prelude.{◌≡◌, refl, ◌≢◌, true}
use qnx_box.ThreadTerm.{
  is_alive, cancel_absent, cancel_top, State, MainStep, WorkerStep, by_main, by_worker, init, Reach,
  here, next,
}
use qnx_box.ThreadTerm.Lines.{
  is_joining, is_killing, is_completed, by_cancel, by_exit, is_calling, has, count, quiet_after,
}
use qnx_box.ThreadTerm.Order.{order_kept}

infixl 5 ◌▷◌
abbrev ◌▷◌ : {s t : State} → Reach init s → MainStep s t → Reach init t
r ▷ st = next r (by_main st)

infixl 5 ◌▸◌
abbrev ◌▸◌ : {s t : State} → Reach init s → (is_alive s.main ≡ true) × WorkerStep s t → Reach init t
r ▸ (alive, st) = next r (by_worker alive st)

top-ne : cancel_top ≢ cancel_absent
top-ne e = cc

-- The thread to cancel prints once, the others when the main thread waits for them.
abbrev whole_run : (s : State) × Reach init s
whole_run = (
  _,
  here
      ▷ MainStep.says_starting refl
      ▷ MainStep.creates refl
      ▷ MainStep.says_created refl
      ▷ MainStep.says_starting refl
      ▷ MainStep.creates refl
      ▷ MainStep.says_created refl
      ▷ MainStep.says_starting refl
      ▷ MainStep.creates refl
      ▷ MainStep.says_created refl
      ▸ (refl, WorkerStep.cancel_starts refl)
      ▷ MainStep.wakes refl
      ▷ MainStep.cancels refl
      ▸ (refl, WorkerStep.cancelled top-ne refl)
      ▷ MainStep.joins_cancel refl refl
      ▷ MainStep.says_joining refl
      ▸ (refl, WorkerStep.kill_starts refl)
      ▸ (refl, WorkerStep.exit_starts refl)
      ▸ (refl, WorkerStep.exit_wakes refl)
      ▸ (refl, WorkerStep.exit_calls refl)
      ▸ (refl, WorkerStep.exit_ends refl)
      ▷ MainStep.joins_exit refl refl
      ▷ MainStep.says_killing refl
      ▷ MainStep.kills refl
      ▷ MainStep.dies refl refl,
)

order_kept_example :
    (quiet_after is_joining by_cancel whole_run.0.out ≡ true)
    × (quiet_after is_killing by_exit whole_run.0.out ≡ true)
    × (has is_killing whole_run.0.out ≡ true → count is_calling whole_run.0.out ≡ 1)
    × (has is_completed whole_run.0.out ≡ true → has is_killing whole_run.0.out ≡ true)
order_kept_example = order_kept whole_run.1
