-- ===== src/Variables/Main/Exits.antt =====
-- How the main thread of src/11.lab_assignment_2.c ends.
use qnx_box.Prelude.{ℕ, ◌≡◌, refl, Bool, true, false, not, ◌&&◌, some, List, ◌==◌}
use qnx_box.Calls.{
  Event, acted, called, Outcome, all_events, Ends, run_lem, is_preceded, Ends-is_preceded,
}
use qnx_box.Variables.{choose_mutex}
use qnx_box.Variables.Main.{
  Call, mutex_init, create, join, mutex_destroy, Action, set_done, say_all_done, program,
  assignment_2,
}

abbrev pub starts_mutex : Event Call Action → Bool
starts_mutex (called mutex_init) = true
starts_mutex _ = false

abbrev pub ends_mutex : Event Call Action → Bool
ends_mutex (called mutex_destroy) = true
ends_mutex _ = false

abbrev pub uses_mutex : Event Call Action → Bool
uses_mutex e = not (not (starts_mutex e) && not (ends_mutex e))

abbrev pub creates_thread : Event Call Action → Bool
creates_thread (called (create i)) = true
creates_thread _ = false

abbrev pub creates_last : Event Call Action → Bool
creates_last (called (create i)) = i == 3
creates_last _ = false

abbrev pub joins_thread : Event Call Action → Bool
joins_thread (called (join i)) = true
joins_thread _ = false

abbrev pub joins_last : Event Call Action → Bool
joins_last (called (join i)) = i == 3
joins_last _ = false

abbrev pub sets_done : Event Call Action → Bool
sets_done (acted set_done) = true
sets_done _ = false

abbrev pub says_all_done : Event Call Action → Bool
says_all_done (acted (say_all_done var1 var2)) = true
says_all_done _ = false

abbrev never : Event Call Action → Bool
never e = false

-- The order of the calls, wherever the process ends.
pub record Ordered (use_mutex : Bool) (es : List (Event Call Action)) : Type 0 where
  pub mutex_first : use_mutex ≡ true → is_preceded starts_mutex creates_thread es ≡ true
  pub created_first : is_preceded creates_last sets_done es ≡ true
  pub done_first : is_preceded sets_done joins_thread es ≡ true
  pub destroyed_last : is_preceded joins_last ends_mutex es ≡ true
  pub joined_first : is_preceded joins_last says_all_done es ≡ true
  pub no_mutex : use_mutex ≡ false → is_preceded never uses_mutex es ≡ true

module _ (ret : Call → ℕ) (sched_priority var1 var2 : ℕ) where
  program-Ordered :
      (use_mutex : Bool)
      → Ordered use_mutex (all_events ret (program use_mutex sched_priority var1 var2))
  program-Ordered true = record {
    mutex_first = λ u. refl;
    created_first = refl;
    done_first = refl;
    destroyed_last = refl;
    joined_first = refl;
    no_mutex = λ u. cc;
  }
  program-Ordered false = record {
    mutex_first = λ u. cc;
    created_first = refl;
    done_first = refl;
    destroyed_last = refl;
    joined_first = refl;
    no_mutex = λ u. refl;
  }

  Ends-Ordered :
      (use_mutex : Bool) {o : Outcome Call Action}
      → Ends ret (program use_mutex sched_priority var1 var2) o
      → Ordered use_mutex o.events
  Ends-Ordered use_mutex e =
      let all = program-Ordered use_mutex in
      record {
        mutex_first =
            λ u. Ends-is_preceded starts_mutex creates_thread (λ c k. refl) (all.mutex_first u) e;
        created_first = Ends-is_preceded creates_last sets_done (λ c k. refl) all.created_first e;
        done_first = Ends-is_preceded sets_done joins_thread (λ c k. refl) all.done_first e;
        destroyed_last = Ends-is_preceded joins_last ends_mutex (λ c k. refl) all.destroyed_last e;
        joined_first = Ends-is_preceded joins_last says_all_done (λ c k. refl) all.joined_first e;
        no_mutex = λ u. Ends-is_preceded never uses_mutex (λ c k. refl) (all.no_mutex u) e;
      }

  -- Whatever the calls return, with the arguments for a use of the mutex or without: all steps are done in
  -- order and the status is 0, or the process exits with 1 at the first call that fails, behind its message.
  -- Wherever it ends, the mutex is initialised before a thread is created, all threads are created before
  -- `done` is set, it is set before a thread is joined, and all are joined before the mutex is destroyed and
  -- before the values are printed; without the mutex, no call is made for it.
  pub assignment_2-Ends :
      (argv : List (List ℕ)) (use_mutex : Bool)
      → choose_mutex argv ≡ some use_mutex
      → Ends ret
          (program use_mutex sched_priority var1 var2)
          (assignment_2 ret argv sched_priority var1 var2)
        × Ordered use_mutex (assignment_2 ret argv sched_priority var1 var2).events
  unfolding assignment_2
  assignment_2-Ends argv use_mutex e =
      let ends = run_lem ret (program use_mutex sched_priority var1 var2) in
      rw e (ends, Ends-Ordered use_mutex ends)
