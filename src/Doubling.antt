-- ===== src/Doubling.antt =====
-- The threads of src/09.lab_assignment_1.c, each of which doubles its part of an array: `double_array`,
-- interleaved in any order, one access to the array at a time. The calls of malloc and pthread_create
-- succeed; a failed pthread_create ends the process.
pub mod Doubled
pub mod Ending
mod Tests
use qnx_box.Prelude.{ℕ, suc, ◌+◌, ◌*◌, ◌/◌, ◌≤◌, ◌<◌, ◌≡◌, update}

abbrev pub thread_count : ℕ
thread_count = 4

abbrev pub array_length : ℕ
array_length = 100

abbrev pub chunk_size : ℕ
chunk_size = array_length / thread_count

-- The arguments of the thread `t`.
abbrev pub start_idx : ℕ → ℕ
start_idx t = t * chunk_size

abbrev pub end_idx : ℕ → ℕ
end_idx t = start_idx t + chunk_size

-- Where a thread stands in its loop.
pub data Pc : Type 0 where
  top : (i e : ℕ) → Pc  -- before the loop's test
  holding : (i e old : ℕ) → Pc  -- has read `array[i]`
  finished : Pc

-- One step of thread `t`.
pub data Move (t : ℕ) (array : ℕ → ℕ) : Pc → (ℕ → ℕ) → Pc → Type 0 where
  read : {i e : ℕ} → i < e → Move t array (top i e) array (holding i e (array i))
  write : {i e old : ℕ} → Move t array (holding i e old) (update array i (old * 2)) (top (i + 1) e)
  finish : {i e : ℕ} → e ≤ i → Move t array (top i e) array finished

pub record System : Type 0 where
  pub array : ℕ → ℕ
  pub pc : ℕ → Pc

pub data Step (s : System) : System → Type 0 where
  pick :
      (t : ℕ) {array : ℕ → ℕ} {p : Pc}
      → t < thread_count
      → Move t s.array (s.pc t) array p
      → Step s (record { array = array; pc = update s.pc t p })

-- After the loops that fill the array and create the threads.
abbrev pub init : System
init = record { array = λ i. i; pc = λ t. top (start_idx t) (end_idx t) }

-- The states that `k` steps lead to.
pub data Run : ℕ → System → Type 0 where
  start : Run 0 init
  next : {k : ℕ} {s u : System} → Run k s → Step s u → Run (suc k) u

-- All threads have returned, so all calls of pthread_join in the main thread do.
abbrev pub IsJoined : System → Type 0
IsJoined s = (t : ℕ) → t < thread_count → s.pc t ≡ finished
