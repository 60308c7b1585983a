-- ===== src/Variables/Main.antt =====
-- The main thread of src/11.lab_assignment_2.c: its calls, in order, and its exits. The results of the
-- calls are the input; so are the thread's priority and the values that the variables have at the end.
pub mod Exits
pub mod Prints
use qnx_box.Prelude.{
  ℕ, zero, suc, ◌≡◌, Bool, true, false, Option, none, some, List, [], ◌∷◌, ◌++◌, if◌then◌else◌, ℤ,
  pos, negsuc, ◌+ℤ◌,
}
use qnx_box.Calls.{Item, act, test, Event, acted, called, failed, Outcome, run}
use qnx_box.Variables.{choose_mutex}

abbrev pub number_of_threads : ℕ
number_of_threads = 4

pub data Call : Type 0 where
  mutex_init : Call
  getschedparam : Call
  attr_init : Call
  attr_setinheritsched : Call
  attr_setschedpolicy : Call
  attr_setschedparam : (sched_priority : ℤ) → Call
  create : (i : ℕ) → Call
  join : (i : ℕ) → Call
  mutex_destroy : Call

pub data Action : Type 0 where
  usage : Action
  clear_variables : Action
  say_starting : Action
  sleep_15 : Action
  set_done : Action
  say_all_done : (var1 var2 : ℕ) → Action

-- `for (int i = 0; i < NUMBER_OF_THREADS; ++i)`, from `i` on for `n` rounds.
abbrev pub each : (ℕ → Call) → (i n : ℕ) → List (Item Call Action)
each call i zero = []
each call i (suc n) = test (call i) ∷ each call (suc i) n

abbrev pub only_if : Bool → Call → List (Item Call Action)
only_if use_mutex c = if use_mutex then test c ∷ [] else []

-- From `var1 = var2 = 0` on.
abbrev pub program : Bool → (sched_priority : ℕ) → (var1 var2 : ℕ) → List (Item Call Action)
program use_mutex sched_priority var1 var2 =
    act clear_variables ∷ act say_starting ∷ only_if use_mutex mutex_init
    ++ (test getschedparam
        ∷ test attr_init
        ∷ test attr_setinheritsched
        ∷ test attr_setschedpolicy
        ∷ test (attr_setschedparam (pos sched_priority +ℤ negsuc 1))
        ∷ each create 0 number_of_threads)
    ++ (act sleep_15 ∷ act set_done ∷ each join 0 number_of_threads)
    ++ only_if use_mutex mutex_destroy
    ++ act (say_all_done var1 var2) ∷ []

abbrev pub chosen : (Call → ℕ) → Option Bool → (sched_priority var1 var2 : ℕ) → Outcome Call Action
chosen ret none sched_priority var1 var2 = record { events = acted usage ∷ []; status = 1 }
chosen ret (some use_mutex) sched_priority var1 var2 =
    run ret (program use_mutex sched_priority var1 var2)

unfoldable pub assignment_2 :
    (Call → ℕ) → List (List ℕ) → (sched_priority var1 var2 : ℕ) → Outcome Call Action
assignment_2 ret argv sched_priority var1 var2 =
    chosen ret (choose_mutex argv) sched_priority var1 var2
