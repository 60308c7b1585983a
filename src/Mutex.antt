-- ===== src/Mutex.antt =====
-- Threads that count under a mutex: `thread_work` of src/10.lab_mutex.c, interleaved in any order,
-- one access to shared memory at a time, with and without the mutex. `n` threads stand for the two
-- of the source; the calls of pthread_mutex_lock and unlock succeed, as `ret` is tested otherwise
-- only to end the process. The printing and the thread's own number are left out.
pub mod Invariant
pub mod Main
pub mod Safety
pub mod Ending
mod Tests
use qnx_box.Prelude.{
  ℕ, suc, ◌+◌, ◌≤◌, ◌<◌, ◌≡◌, Bool, true, false, Option, none, some, List, [], ◌∷◌, if◌then◌else◌,
  update,
}
use qnx_box.CString.{codes, choice}

-- `use_mutex`, from `argv`; the third argument is looked at only where `argc` is
-- 3; `none` is the return with 1.
abbrev pub choose_mutex : List (List ℕ) → Option Bool
choose_mutex (program ∷ lab ∷ arg ∷ []) = choice (codes "sync") (codes "no_sync") arg
choose_mutex _ = some true

abbrev pub rounds : ℕ
rounds = 5

-- Where a thread stands in the loop, with the locals that are live there.
pub data Pc : Type 0 where
  top : (i : ℕ) → Pc  -- before the loop's test
  inside : (i : ℕ) → Pc  -- before `local = counter`
  holding : (i local : ℕ) → Pc  -- before `counter = local + 1`
  leaving : (i : ℕ) → Pc  -- before pthread_mutex_unlock
  finished : Pc  -- returned

-- The globals `counter` and `lock`; the lock is its owner, if there is one.
pub record Shared : Type 0 where
  pub counter : ℕ
  pub lock : Option ℕ

-- One step of thread `t`.
pub data Move (use_mutex : Bool) (t : ℕ) (m : Shared) : Pc → Shared → Pc → Type 0 where
  acquire :
      {i : ℕ}
      → use_mutex ≡ true
      → i < rounds
      → m.lock ≡ none
      → Move use_mutex t m (top i) (record m { lock = some t }) (inside i)
  walk_in : {i : ℕ} → use_mutex ≡ false → i < rounds → Move use_mutex t m (top i) m (inside i)
  load : {i : ℕ} → Move use_mutex t m (inside i) m (holding i m.counter)
  store : {i l : ℕ} → Move use_mutex t m (holding i l) (record m { counter = l + 1 }) (leaving i)
  release :
      {i : ℕ}
      → use_mutex ≡ true
      → Move use_mutex t m (leaving i) (record m { lock = none }) (top (suc i))
  walk_out : {i : ℕ} → use_mutex ≡ false → Move use_mutex t m (leaving i) m (top (suc i))
  finish : {i : ℕ} → rounds ≤ i → Move use_mutex t m (top i) m finished

pub record System : Type 0 where
  pub mem : Shared
  pub pc : ℕ → Pc

-- Any one of the `n` threads makes a move.
pub data Step (use_mutex : Bool) (n : ℕ) (s : System) : System → Type 0 where
  pick :
      (t : ℕ) {m : Shared} {p : Pc}
      → t < n
      → Move use_mutex t s.mem (s.pc t) m p
      → Step use_mutex n s (record { mem = m; pc = update s.pc t p })

-- The counter starts at 0, and every thread before the first test of its loop.
abbrev pub init : System
init = record { mem = record { counter = 0; lock = none }; pc = λ _. Pc.top 0 }

-- The states that `k` steps lead to.
pub data Run (use_mutex : Bool) (n : ℕ) : ℕ → System → Type 0 where
  start : Run use_mutex n 0 init
  next :
      {k : ℕ} {s u : System}
      → Run use_mutex n k s
      → Step use_mutex n s u
      → Run use_mutex n (suc k) u

-- All threads have returned, so both calls of pthread_join in `main` do.
abbrev pub IsJoined : ℕ → System → Type 0
IsJoined n s = (t : ℕ) → t < n → s.pc t ≡ Pc.finished
