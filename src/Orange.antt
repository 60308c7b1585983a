-- ===== src/Orange.antt =====
-- Threads that share out an array: `buff_alloc` and `thread_work` of src/12.orange_problem.c,
-- interleaved in any order, one access to shared memory at a time, with and without the mutex. `n`
-- threads stand for the four of the source; the calls of pthread_mutex_lock and unlock succeed, as
-- `ret` is tested otherwise only to end the process. A cell is an int8_t, kept as its 8-bit pattern.
pub mod Cells
pub mod Ending
pub mod Invariant
pub mod Main
mod Tests
use qnx_box.Prelude.{
  ℕ, suc, ◌+◌, ◌*◌, ◌/◌, ◌%◌, ◌≤◌, ◌<◌, ◌≡◌, Bool, true, false, ◌||◌, Option, none, some, leb, ltb,
  List, [], ◌∷◌, if◌then◌else◌, update,
}
use qnx_box.CString.{codes, choice}

-- `use_mutex`, from `argv`; the third argument is looked at only where `argc` is
-- 3; `none` is the return with 1.
abbrev pub choose_mutex : List (List ℕ) → Option Bool
choose_mutex (program ∷ lab ∷ arg ∷ []) = choice (codes "sync") (codes "no_sync") arg
choose_mutex _ = some false

abbrev pub array_size : ℕ
array_size = 1000

abbrev pub number_of_threads : ℕ
number_of_threads = 4

abbrev pub work_per_thread : ℕ
work_per_thread = array_size / number_of_threads

abbrev pub alloc_size : ℕ
alloc_size = work_per_thread / 10

-- The test of `buff_alloc` after which it returns NULL.
abbrev pub is_exhausted : ℕ → Bool
is_exhausted allocated = leb array_size allocated || ltb array_size (allocated + alloc_size)

abbrev pub increment : ℕ → ℕ
increment v = (v + 1) % 256

-- Where a thread stands, with `work_done` and the other locals that are live there.
pub data Pc : Type 0 where
  top : (work_done : ℕ) → Pc  -- before `while (work_done < WORK_PER_THREAD)`
  inside : (work_done : ℕ) → Pc  -- before the test of `buff_alloc`
  chosen : (work_done start : ℕ) → Pc  -- in `buff_alloc`, before `allocated += alloc_size`
  leaving : (work_done : ℕ) → (allocation : Option ℕ) → Pc  -- before the unlock
  filling : (work_done start i : ℕ) → Pc  -- before `i < ALLOC_SIZE`
  holding : (work_done start i cell : ℕ) → Pc  -- has read `allocation[i]`
  finished : Pc  -- returned
  failed : Pc  -- about to exit(EXIT_FAILURE)

-- The globals. An allocation is the index of its first cell; the lock is its owner.
pub record Shared : Type 0 where
  pub allocated : ℕ
  pub lock : Option ℕ
  pub array : ℕ → ℕ

-- One step of thread `t`.
pub data Move (use_mutex : Bool) (t : ℕ) (m : Shared) : Pc → Shared → Pc → Type 0 where
  acquire :
      {d : ℕ}
      → use_mutex ≡ true
      → d < work_per_thread
      → m.lock ≡ none
      → Move use_mutex t m (top d) (record m { lock = some t }) (inside d)
  walk_in :
      {d : ℕ} → use_mutex ≡ false → d < work_per_thread → Move use_mutex t m (top d) m (inside d)
  refuse :
      {d : ℕ} → is_exhausted m.allocated ≡ true → Move use_mutex t m (inside d) m (leaving d none)
  choose :
      {d : ℕ}
      → is_exhausted m.allocated ≡ false
      → Move use_mutex t m (inside d) m (chosen d m.allocated)
  claim :
      {d a : ℕ}
      → Move use_mutex t m
          (chosen d a)
          (record m { allocated = a + alloc_size })
          (leaving d (some a))
  release :
      {d a : ℕ}
      → use_mutex ≡ true
      → Move use_mutex t m
          (leaving d (some a))
          (record m { lock = none })
          (filling (d + alloc_size) a 0)
  walk_out :
      {d a : ℕ}
      → use_mutex ≡ false
      → Move use_mutex t m (leaving d (some a)) m (filling (d + alloc_size) a 0)
  release_null :
      {d : ℕ}
      → use_mutex ≡ true
      → Move use_mutex t m (leaving d none) (record m { lock = none }) failed
  walk_out_null : {d : ℕ} → use_mutex ≡ false → Move use_mutex t m (leaving d none) m failed
  load :
      {d a i : ℕ}
      → i < alloc_size
      → Move use_mutex t m (filling d a i) m (holding d a i (m.array (a + i)))
  store :
      {d a i v : ℕ}
      → Move use_mutex t m
          (holding d a i v)
          (record m { array = update m.array (a + i) (increment v) })
          (filling d a (suc i))
  chunk_done : {d a i : ℕ} → alloc_size ≤ i → Move use_mutex t m (filling d a i) m (top d)
  finish : {d : ℕ} → work_per_thread ≤ d → Move use_mutex t m (top d) m finished

pub record System : Type 0 where
  pub mem : Shared
  pub pc : ℕ → Pc

-- Any one of the `n` threads makes a move.
pub data Step (use_mutex : Bool) (n : ℕ) (s : System) : System → Type 0 where
  pick :
      (t : ℕ) {m : Shared} {p : Pc}
      → t < n
      → Move use_mutex t s.mem (s.pc t) m p
      → Step use_mutex n s (record { mem = m; pc = update s.pc t p })

abbrev pub init : System
init = record { mem = record { allocated = 0; lock = none; array = λ i. 0 }; pc = λ t. Pc.top 0 }

-- The states that `k` steps lead to.
pub data Run (use_mutex : Bool) (n : ℕ) : ℕ → System → Type 0 where
  start : Run use_mutex n 0 init
  next :
      {k : ℕ} {s u : System}
      → Run use_mutex n k s
      → Step use_mutex n s u
      → Run use_mutex n (suc k) u

-- All threads have returned, so all calls of pthread_join in the main thread do.
abbrev pub IsJoined : ℕ → System → Type 0
IsJoined n s = (t : ℕ) → t < n → s.pc t ≡ Pc.finished
