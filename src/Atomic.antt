-- ===== src/Atomic.antt =====
-- The threads of src/14.lab_atomic.c, which count with atomic_fetch_add or without: `thread_work`,
-- interleaved in any order, one access to shared memory at a time. `updates` stands
-- for UPDATES, which is 1000. The calls of pthread_create succeed.
pub mod Counting
mod Tests
use qnx_box.Prelude.{
  ℕ, suc, ◌+◌, ◌*◌, ◌≤◌, ◌<◌, ◌≡◌, Bool, true, false, Option, none, some, List, [], ◌∷◌, ◌==◌,
  if◌then◌else◌, update,
}
use qnx_box.CString.{codes, choice}

abbrev pub number_of_threads : ℕ
number_of_threads = 4

-- `use_atomic`, from `argv`; the third argument is looked at only where `argc` is 3; `none` is the return
-- with 1.
abbrev pub choose_atomic : List (List ℕ) → Option Bool
choose_atomic (program ∷ lab ∷ arg ∷ []) = choice (codes "atomic") (codes "no_atomic") arg
choose_atomic _ = some true

-- Where a thread stands in its loop.
pub data Pc : Type 0 where
  top : (i : ℕ) → Pc  -- before the loop's test
  adding : (i : ℕ) → Pc  -- before atomic_fetch_add
  reading : (i : ℕ) → Pc  -- before `old_value = value`
  holding : (i old_value : ℕ) → Pc
  finished : Pc

-- The globals.
pub record Shared : Type 0 where
  pub at_value : ℕ
  pub value : ℕ

-- One step of a thread.
pub data Move (updates : ℕ) (use_atomic : Bool) (m : Shared) : Pc → Shared → Pc → Type 0 where
  atomic :
      {i : ℕ} → use_atomic ≡ true → i < updates → Move updates use_atomic m (top i) m (adding i)
  plain :
      {i : ℕ} → use_atomic ≡ false → i < updates → Move updates use_atomic m (top i) m (reading i)
  fetch_add :
      {i : ℕ}
      → Move updates use_atomic m (adding i) (record m { at_value = m.at_value + 1 }) (top (suc i))
  read : {i : ℕ} → Move updates use_atomic m (reading i) m (holding i m.value)
  write :
      {i old_value : ℕ}
      → Move updates use_atomic m
          (holding i old_value)
          (record m { value = old_value + 1 })
          (top (suc i))
  finish : {i : ℕ} → updates ≤ i → Move updates use_atomic m (top i) m finished

pub record System : Type 0 where
  pub mem : Shared
  pub pc : ℕ → Pc

pub data Step (updates : ℕ) (use_atomic : Bool) (s : System) : System → Type 0 where
  pick :
      (t : ℕ) {m : Shared} {p : Pc}
      → t < number_of_threads
      → Move updates use_atomic s.mem (s.pc t) m p
      → Step updates use_atomic s (record { mem = m; pc = update s.pc t p })

abbrev pub init : System
init = record { mem = record { at_value = 0; value = 0 }; pc = λ t. top 0 }

-- The states that `k` steps lead to.
pub data Run (updates : ℕ) (use_atomic : Bool) : ℕ → System → Type 0 where
  start : Run updates use_atomic 0 init
  next :
      {k : ℕ} {s u : System}
      → Run updates use_atomic k s
      → Step updates use_atomic s u
      → Run updates use_atomic (suc k) u

-- All threads have returned, so all calls of pthread_join in the main thread do.
abbrev pub IsJoined : System → Type 0
IsJoined s = (t : ℕ) → t < number_of_threads → s.pc t ≡ finished

-- `v` in the main thread.
abbrev pub ending_value : Bool → Shared → ℕ
ending_value use_atomic m = if use_atomic then m.at_value else m.value

-- Whether the main thread prints that there is an error.
abbrev pub is_error : ℕ → Bool → Shared → Bool
is_error updates use_atomic m =
    if ending_value use_atomic m == updates * number_of_threads then false else true
