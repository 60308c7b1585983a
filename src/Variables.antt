-- ===== src/Variables.antt =====
-- The threads of src/11.lab_assignment_2.c, which keep two variables equal under a mutex: `thread_work`
-- and `do_work`, interleaved in any order, one access to shared memory at a time, with and without the
-- mutex. `n` threads stand for the four of the source; a failed call ends the process and is left out.
-- The variables are unsigned and wrap at 2 ^ 32.
pub mod Equal
pub mod Main
pub mod Ending
mod Tests
use qnx_box.Prelude.{
  ℕ, suc, ◌+◌, ◌-◌, ◌%◌, ◌^◌, ◌<◌, ◌≡◌, ◌≢◌, Bool, true, false, Option, none, some, List, [], ◌∷◌,
  update,
}
use qnx_box.CString.{codes, choice}

-- `use_mutex`, from `argv`; the third argument is looked at only where `argc` is 3; `none` is the return
-- with 1.
abbrev pub choose_mutex : List (List ℕ) → Option Bool
choose_mutex (program ∷ lab ∷ arg ∷ []) = choice (codes "sync") (codes "no_sync") arg
choose_mutex _ = some true

abbrev pub add : ℕ → ℕ → ℕ
add v k = (v + k) % 2 ^ 32

abbrev pub decrement : ℕ → ℕ
decrement v = (v + 2 ^ 32 - 1) % 2 ^ 32

-- Where a thread stands. A number is a value that it has read and not yet written back.
pub data Pc : Type 0 where
  top : Pc  -- before `while (!done)`
  locking : Pc  -- before pthread_mutex_lock
  inside : Pc  -- before `var1 != var2`
  testing : (v1 : ℕ) → Pc  -- has read var1
  reporting : Pc  -- has found them different, before `var1 = var2`
  fixing : (v2 : ℕ) → Pc
  working : Pc  -- before `var3++`
  worked : (v3 : ℕ) → Pc
  add1 : Pc  -- before `var1 += 2`
  added1 : (v1 : ℕ) → Pc
  sub1 : Pc  -- before `var1--`
  subbed1 : (v1 : ℕ) → Pc
  add2 : Pc
  added2 : (v2 : ℕ) → Pc
  sub2 : Pc
  subbed2 : (v2 : ℕ) → Pc
  leaving : Pc  -- before pthread_mutex_unlock
  finished : Pc

-- The globals, the static variable of `do_work`, the lock as its owner, and how often two different
-- values were reported.
pub record Shared : Type 0 where
  pub var1 : ℕ
  pub var2 : ℕ
  pub var3 : ℕ
  pub done : Bool
  pub lock : Option ℕ
  pub reports : ℕ

-- One step of thread `t`.
pub data Move (use_mutex : Bool) (t : ℕ) (m : Shared) : Pc → Shared → Pc → Type 0 where
  stay : m.done ≡ false → Move use_mutex t m top m locking
  leave : m.done ≡ true → Move use_mutex t m top m finished
  acquire :
      use_mutex ≡ true
      → m.lock ≡ none
      → Move use_mutex t m locking (record m { lock = some t }) inside
  walk_in : use_mutex ≡ false → Move use_mutex t m locking m inside
  read1 : Move use_mutex t m inside m (testing m.var1)
  differ :
      {v : ℕ}
      → v ≢ m.var2
      → Move use_mutex t m (testing v) (record m { reports = suc m.reports }) reporting
  agree : {v : ℕ} → v ≡ m.var2 → Move use_mutex t m (testing v) m working
  read_fix : Move use_mutex t m reporting m (fixing m.var2)
  fix : {v : ℕ} → Move use_mutex t m (fixing v) (record m { var1 = v }) working
  read3 : Move use_mutex t m working m (worked m.var3)
  work : {v : ℕ} → Move use_mutex t m (worked v) (record m { var3 = add v 1 }) add1
  read_add1 : Move use_mutex t m add1 m (added1 m.var1)
  do_add1 : {v : ℕ} → Move use_mutex t m (added1 v) (record m { var1 = add v 2 }) sub1
  read_sub1 : Move use_mutex t m sub1 m (subbed1 m.var1)
  do_sub1 : {v : ℕ} → Move use_mutex t m (subbed1 v) (record m { var1 = decrement v }) add2
  read_add2 : Move use_mutex t m add2 m (added2 m.var2)
  do_add2 : {v : ℕ} → Move use_mutex t m (added2 v) (record m { var2 = add v 2 }) sub2
  read_sub2 : Move use_mutex t m sub2 m (subbed2 m.var2)
  do_sub2 : {v : ℕ} → Move use_mutex t m (subbed2 v) (record m { var2 = decrement v }) leaving
  release : use_mutex ≡ true → Move use_mutex t m leaving (record m { lock = none }) top
  walk_out : use_mutex ≡ false → Move use_mutex t m leaving m top

pub record System : Type 0 where
  pub mem : Shared
  pub pc : ℕ → Pc

-- Any one of the `n` threads makes a move, or the main thread sets `done`.
pub data Step (use_mutex : Bool) (n : ℕ) (s : System) : System → Type 0 where
  pick :
      (t : ℕ) {m : Shared} {p : Pc}
      → t < n
      → Move use_mutex t s.mem (s.pc t) m p
      → Step use_mutex n s (record { mem = m; pc = update s.pc t p })
  stop : Step use_mutex n s (record s { mem = record s.mem { done = true } })

abbrev pub init : System
init = record {
  mem = record { var1 = 0; var2 = 0; var3 = 0; done = false; lock = none; reports = 0 };
  pc = λ t. Pc.top;
}

pub data Reach (use_mutex : Bool) (n : ℕ) (a : System) : System → Type 0 where
  here : Reach use_mutex n a a
  next : {s u : System} → Reach use_mutex n a s → Step use_mutex n s u → Reach use_mutex n a u

-- All threads have returned, so all calls of pthread_join in the main thread do.
abbrev pub IsJoined : ℕ → System → Type 0
IsJoined n s = (t : ℕ) → t < n → s.pc t ≡ Pc.finished
