-- ===== src/Orange/Main.antt =====
-- The main thread of src/12.orange_problem.c: its calls, in order, its exits, and what it prints. The
-- results of the calls are the input, and the array as the threads leave it.
pub mod Prints
use qnx_box.Prelude.{
  ℕ, zero, suc, ◌-◌, Bool, true, false, Option, none, some, List, [], ◌∷◌, ◌++◌, if◌then◌else◌, ltb,
  ℤ, pos, negsuc,
}
use qnx_box.Calls.{Item, act, test, warn, Event, acted, Outcome, run}
use qnx_box.Orange.{choose_mutex, array_size, number_of_threads}

pub data Call : Type 0 where
  mutex_init : Call
  create : (i : ℕ) → Call
  join : (i : ℕ) → Call
  mutex_destroy : Call

pub data Action : Type 0 where
  usage : Action
  print : List ℤ → Action

-- An int8_t, from its pattern.
abbrev pub signed : ℕ → ℤ
signed v = if ltb v 128 then pos v else negsuc (255 - v)

-- The loop of `print_array`, from `i` on for `n` rounds.
unfoldable pub cells : (ℕ → ℕ) → (i n : ℕ) → List ℤ
cells array i zero = []
cells array i (suc n) = signed (array i) ∷ cells array (suc i) n

abbrev pub print_array : (ℕ → ℕ) → Action
print_array array = print (cells array 0 array_size)

-- `for (int i = 0; i < NUMBER_OF_THREADS; ++i)`, from `i` on for `n` rounds.
abbrev pub each : (ℕ → Call) → (i n : ℕ) → List (Item Call Action)
each call i zero = []
each call i (suc n) = test (call i) ∷ each call (suc i) n

abbrev pub only_if : Bool → Item Call Action → List (Item Call Action)
only_if use_mutex item = if use_mutex then item ∷ [] else []

-- From the first `print_array` on; the array is `before` there and `behind` at the second one.
abbrev pub program : Bool → (before behind : ℕ → ℕ) → List (Item Call Action)
program use_mutex before behind =
    act (print_array before) ∷ only_if use_mutex (test mutex_init)
    ++ each create 0 number_of_threads
    ++ each join 0 number_of_threads
    ++ (act (print_array behind) ∷ only_if use_mutex (warn mutex_destroy))

abbrev pub chosen : (Call → ℕ) → Option Bool → (before behind : ℕ → ℕ) → Outcome Call Action
chosen ret none before behind = record { events = acted usage ∷ []; status = 1 }
chosen ret (some use_mutex) before behind = run ret (program use_mutex before behind)

unfoldable pub orange_problem :
    (Call → ℕ) → List (List ℕ) → (before behind : ℕ → ℕ) → Outcome Call Action
orange_problem ret argv before behind = chosen ret (choose_mutex argv) before behind
