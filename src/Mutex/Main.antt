-- ===== src/Mutex/Main.antt =====
-- The main thread of src/10.lab_mutex.c: its calls, in order, and its exits. The results of the calls that
-- it tests are the input, and the counter as the threads leave it; it does not test the others.
pub mod Prints
use qnx_box.Prelude.{
  ℕ, Bool, true, false, Option, none, some, List, [], ◌∷◌, ◌++◌, ◌==◌, if◌then◌else◌,
}
use qnx_box.Calls.{Item, act, test, Event, acted, Outcome, run}
use qnx_box.Mutex.{choose_mutex}

pub data Call : Type 0 where
  mutex_init : Call
  mutex_destroy : Call

pub data Action : Type 0 where
  usage : Action
  say_using : Action
  say_not_using : Action
  create : (thread : ℕ) → Action
  join : (thread : ℕ) → Action
  say_final : (counter : ℕ) → Action

-- `ret`: behind pthread_mutex_init it is the truth value of `!= 0`.
abbrev pub tested : (Call → ℕ) → Call → ℕ
tested results mutex_init = if results mutex_init == 0 then 0 else 1
tested results mutex_destroy = results mutex_destroy

-- From the test of `use_mutex` on.
abbrev pub program : Bool → (counter : ℕ) → List (Item Call Action)
program use_mutex counter =
    (if use_mutex then act say_using ∷ test mutex_init ∷ [] else act say_not_using ∷ [])
    ++ (act (create 1)
        ∷ act (create 2)
        ∷ act (join 1)
        ∷ act (join 2)
        ∷ act (say_final counter)
        ∷ (if use_mutex then test mutex_destroy ∷ [] else []))

abbrev pub chosen : (Call → ℕ) → Option Bool → (counter : ℕ) → Outcome Call Action
chosen results none counter = record { events = acted usage ∷ []; status = 1 }
chosen results (some use_mutex) counter = run (tested results) (program use_mutex counter)

unfoldable pub mutex_lab : (Call → ℕ) → List (List ℕ) → (counter : ℕ) → Outcome Call Action
mutex_lab results argv counter = chosen results (choose_mutex argv) counter
