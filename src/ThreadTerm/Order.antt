-- ===== src/ThreadTerm/Order.antt =====
-- In which order the threads of src/08.lab_thread_term.c print, whatever their turns.
use qnx_box.Prelude.{◌≡◌, refl, Bool, true, false, not, ◌&&◌, ◌||◌, if◌then◌else◌, ◌==◌, arith}
use qnx_box.ThreadTerm.{
  for_cancel, for_exit, for_kill, starting, failed, created, cancelling, joining, killing,
  completed, cancel_started, cancel_running, exit_started, exit_calling, kill_started, kill_waiting,
  Main, at_start, at_create, at_created, at_joining, in_join_exit, at_killing, at_kill,
  in_last_sleep, at_completed, Cancel, cancel_top, cancel_sleep, cancel_test, cancel_ended, Exit,
  exit_absent, exit_start, exit_sleep, exit_awake, exit_call, exit_ended, is_alive, State, MainStep,
  WorkerStep, by_main, by_worker, init, Reach, here, next,
}
use qnx_box.ThreadTerm.Lines.{
  is_joining, is_killing, is_completed, by_cancel, by_exit, is_calling, has, count, quiet_after,
  Facts, facts, add, facts-snoc,
}

-- What each thread has printed, from where it stands.
abbrev pub has_joined_cancel : Main → Bool
has_joined_cancel at_joining = true
has_joined_cancel in_join_exit = true
has_joined_cancel at_killing = true
has_joined_cancel at_kill = true
has_joined_cancel in_last_sleep = true
has_joined_cancel at_completed = true
has_joined_cancel _ = false

abbrev pub has_joined_exit : Main → Bool
has_joined_exit at_killing = true
has_joined_exit at_kill = true
has_joined_exit in_last_sleep = true
has_joined_exit at_completed = true
has_joined_exit _ = false

abbrev pub has_called : Exit → Bool
has_called exit_call = true
has_called exit_ended = true
has_called _ = false

-- `thread_func_exit` has not been created.
abbrev pub before_exit : Main → Bool
before_exit (at_start for_cancel) = true
before_exit (at_create for_cancel) = true
before_exit (at_created for_cancel) = true
before_exit (at_start for_exit) = true
before_exit (at_create for_exit) = true
before_exit _ = false

-- The line "Killing" has been printed.
abbrev pub has_said_killing : Main → Bool
has_said_killing at_kill = true
has_said_killing in_last_sleep = true
has_said_killing at_completed = true
has_said_killing _ = false

abbrev pub cancel_is_over : Cancel → Bool
cancel_is_over cancel_ended = true
cancel_is_over _ = false

abbrev pub exit_is_over : Exit → Bool
exit_is_over exit_ended = true
exit_is_over _ = false

abbrev pub is_absent : Exit → Bool
is_absent exit_absent = true
is_absent _ = false

infixr 2 ◌⇒◌
abbrev ◌⇒◌ : Bool → Bool → Bool
a ⇒ b = not a || b

-- What holds between where the threads stand and what they have printed.
abbrev standing : Main → Cancel → Exit → Bool
standing m c x =
    (has_joined_cancel m ⇒ cancel_is_over c)
    && (has_joined_exit m ⇒ exit_is_over x)
    && (before_exit m ⇒ is_absent x)

abbrev printed : Main → Exit → Facts → Bool
printed m x f =
    ((is_alive m && f.joins) ⇒ has_joined_cancel m)
    && ((is_alive m && f.kills) ⇒ has_joined_exit m)
    && (f.kills ⇒ (f.calls == 1))
    && (f.completes ⇒ f.kills)
    && (has_said_killing m ⇒ f.kills)
    && f.cancel_quiet
    && f.exit_quiet
    && (f.calls == (if has_called x then 1 else 0))

abbrev holds : State → Facts → Bool
holds s f = standing s.main s.cancel s.exit && printed s.main s.exit f

MainStep-holds :
    {s t : State} → MainStep s t → holds s (facts s.out) ≡ true → holds t (facts t.out) ≡ true
MainStep-holds {s} (MainStep.says_starting {w} e) o =
    rw (facts-snoc s.out (starting w)) (ground arith)
MainStep-holds {s} (MainStep.create_fails {w} e) o = rw (facts-snoc s.out (failed w)) (ground arith)
MainStep-holds {s} (MainStep.creates {w = for_cancel} e) o = ground arith
MainStep-holds {s} (MainStep.creates {w = for_exit} e) o = ground arith
MainStep-holds {s} (MainStep.creates {w = for_kill} e) o = ground arith
MainStep-holds {s} (MainStep.says_created {w} e) o =
    rw (facts-snoc s.out (created w)) (ground arith)
MainStep-holds {s} (MainStep.wakes e) o = ground (arith)
MainStep-holds {s} (MainStep.cancels e) o = rw (facts-snoc s.out cancelling) (ground arith)
MainStep-holds {s} (MainStep.joins_cancel e f) o = ground arith
MainStep-holds {s} (MainStep.says_joining e) o = rw (facts-snoc s.out joining) (ground arith)
MainStep-holds {s} (MainStep.joins_exit e f) o = ground arith
MainStep-holds {s} (MainStep.says_killing e) o = rw (facts-snoc s.out killing) (ground arith)
MainStep-holds {s} (MainStep.kills e) o = ground arith
MainStep-holds {s} (MainStep.kill_fails e) o = ground arith
MainStep-holds {s} (MainStep.dies e a) o = ground arith
MainStep-holds {s} (MainStep.wakes_last e) o = ground arith
MainStep-holds {s} (MainStep.says_completed e) o = rw (facts-snoc s.out completed) (ground arith)

module _ (m : Main) (c : Cancel) (x : Exit) (f : Facts) (alive : is_alive m ≡ true)
    (o : (standing m c x && printed m x f) ≡ true) where
  start_of_cancel :
      cancel_is_over c ≡ false
      → (standing m cancel_top x && printed m x (add cancel_started f)) ≡ true
  start_of_cancel n = ground arith

  round_of_cancel :
      cancel_is_over c ≡ false
      → (standing m cancel_sleep x && printed m x (add cancel_running f)) ≡ true
  round_of_cancel n = ground arith

  start_of_exit :
      x ≡ exit_start → (standing m c exit_sleep && printed m exit_sleep (add exit_started f)) ≡ true
  start_of_exit e = ground arith

  call_of_exit :
      x ≡ exit_awake → (standing m c exit_call && printed m exit_call (add exit_calling f)) ≡ true
  call_of_exit e = ground arith

  line_of_kill : (standing m c x && printed m x (add kill_started f)) ≡ true
  line_of_kill = ground arith

  -- Without a line.
  turn_of_cancel :
      (c' : Cancel) → cancel_is_over c ≡ false → (standing m c' x && printed m x f) ≡ true
  turn_of_cancel c' n = ground arith

  end_of_cancel : (standing m cancel_ended x && printed m x f) ≡ true
  end_of_cancel = ground arith

  wake_of_exit : x ≡ exit_sleep → (standing m c exit_awake && printed m exit_awake f) ≡ true
  wake_of_exit e = ground arith

  end_of_exit : x ≡ exit_call → (standing m c exit_ended && printed m exit_ended f) ≡ true
  end_of_exit e = ground arith

WorkerStep-holds :
    {s t : State}
    → is_alive s.main ≡ true
    → WorkerStep s t
    → holds s (facts s.out) ≡ true
    → holds t (facts t.out) ≡ true
WorkerStep-holds {s} a (WorkerStep.cancel_starts e) o =
    rw (facts-snoc s.out cancel_started)
      (start_of_cancel s.main s.cancel s.exit (facts s.out) a o (rw e))
WorkerStep-holds {s} a (WorkerStep.cancel_runs e) o =
    rw (facts-snoc s.out cancel_running)
      (round_of_cancel s.main s.cancel s.exit (facts s.out) a o (rw e))
WorkerStep-holds {s} a (WorkerStep.cancel_wakes e) o =
    turn_of_cancel s.main s.cancel s.exit (facts s.out) a o cancel_test (rw e)
WorkerStep-holds {s} a (WorkerStep.cancel_passes e f) o =
    turn_of_cancel s.main s.cancel s.exit (facts s.out) a o cancel_top (rw e)
WorkerStep-holds {s} a (WorkerStep.cancelled e f) o =
    end_of_cancel s.main s.cancel s.exit (facts s.out) a o
WorkerStep-holds {s} a (WorkerStep.exit_starts e) o =
    rw (facts-snoc s.out exit_started) (start_of_exit s.main s.cancel s.exit (facts s.out) a o e)
WorkerStep-holds {s} a (WorkerStep.exit_wakes e) o =
    wake_of_exit s.main s.cancel s.exit (facts s.out) a o e
WorkerStep-holds {s} a (WorkerStep.exit_calls e) o =
    rw (facts-snoc s.out exit_calling) (call_of_exit s.main s.cancel s.exit (facts s.out) a o e)
WorkerStep-holds {s} a (WorkerStep.exit_ends e) o =
    end_of_exit s.main s.cancel s.exit (facts s.out) a o e
WorkerStep-holds {s} a (WorkerStep.kill_starts e) o =
    rw (facts-snoc s.out kill_started) (line_of_kill s.main s.cancel s.exit (facts s.out) a o)
WorkerStep-holds {s} a (WorkerStep.kill_runs e) o =
    rw (facts-snoc s.out kill_waiting) (line_of_kill s.main s.cancel s.exit (facts s.out) a o)
WorkerStep-holds {s} a (WorkerStep.kill_wakes e) o = o

Reach-holds : {s : State} → Reach init s → holds s (facts s.out) ≡ true
unfolding facts
Reach-holds here = refl
Reach-holds (next r (by_main st)) = MainStep-holds st (Reach-holds r)
Reach-holds (next r (by_worker a st)) = WorkerStep-holds a st (Reach-holds r)

-- In whatever turns the threads run, and whether or not the calls of pthread_create and pthread_kill succeed:
-- behind the line "Joining" there is no line of `thread_func_cancel`, and behind the line "Killing" none of
-- `thread_func_exit`, which has then printed exactly one time that it calls pthread_exit; and the line
-- "Completed" is printed only where "Killing" was.
pub order_kept :
    {s : State}
    → Reach init s
    → (quiet_after is_joining by_cancel s.out ≡ true)
      × (quiet_after is_killing by_exit s.out ≡ true)
      × (has is_killing s.out ≡ true → count is_calling s.out ≡ 1)
      × (has is_completed s.out ≡ true → has is_killing s.out ≡ true)
unfolding facts
order_kept {s} r =
    let o = Reach-holds r in
    (ground (arith, o), ground (arith, o), λ h. ground (arith, o), λ h. ground (arith, o))
