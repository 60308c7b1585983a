-- ===== src/Condvar.antt =====
-- src/13.lab_condvar.c: the main thread and `worker`, interleaved in any order. The calls succeed; a failed
-- pthread_create ends the process. sleep(2) may return at any time, and pthread_cond_wait for no reason.
pub mod Ending
pub mod Invariant
mod Tests
use qnx_box.Prelude.{ℕ, suc, ◌≡◌, ◌≢◌, Bool, true, false, Option, none, some}

pub data Who : Type 0 where
  main worker : Who

-- Where the main thread stands: before the call that the name says.
pub data Main : Type 0 where
  creating sleeping locking : Main
  setting : Main  -- before `ready = 1`
  signalling unlocking joining destroying : Main
  returned : Main

pub data Worker : Type 0 where
  absent : Worker  -- before pthread_create
  locking : Worker
  testing : Worker  -- before `ready == 0`
  waiting : Worker  -- asleep in pthread_cond_wait
  waking : Worker  -- woken, and before pthread_cond_wait has the mutex again
  unlocking : Worker
  returned : Worker

-- The globals, with the mutex as its owner, and the two threads.
pub record System : Type 0 where
  pub ready : Bool
  pub mutex : Option Who
  pub is_destroyed : Bool
  pub at_main : Main
  pub at_worker : Worker

-- pthread_cond_signal
abbrev pub signalled : Worker → Worker
signalled waiting = waking
signalled w = w

abbrev pub sys : Bool → Option Who → Bool → Main → Worker → System
sys ready mutex is_destroyed at_main at_worker = record {
  ready = ready;
  mutex = mutex;
  is_destroyed = is_destroyed;
  at_main = at_main;
  at_worker = at_worker;
}

-- A step of a thread that is not a wake-up for no reason: with the flag `r`, the mutex `o`, `d` for the
-- destruction, and the threads at `m` and `w`.
pub data Step : System → System → Type 0 where
  create :
      {r d : Bool} {o : Option Who} {w : Worker}
      → Step (sys r o d creating w) (sys r o d sleeping Worker.locking)
  awake :
      {r d : Bool} {o : Option Who} {w : Worker}
      → Step (sys r o d sleeping w) (sys r o d Main.locking w)
  lock :
      {r d : Bool} {w : Worker} → Step (sys r none d Main.locking w) (sys r (some main) d setting w)
  set :
      {r d : Bool} {o : Option Who} {w : Worker}
      → Step (sys r o d setting w) (sys true o d signalling w)
  signal :
      {r d : Bool} {o : Option Who} {w : Worker}
      → Step (sys r o d signalling w) (sys r o d Main.unlocking (signalled w))
  unlock :
      {r d : Bool} {o : Option Who} {w : Worker}
      → Step (sys r o d Main.unlocking w) (sys r none d joining w)
  join :
      {r d : Bool} {o : Option Who}
      → Step (sys r o d joining Worker.returned) (sys r o d destroying Worker.returned)
  destroy :
      {r d : Bool} {o : Option Who} {w : Worker}
      → Step (sys r o d destroying w) (sys r o true Main.returned w)
  enter :
      {r d : Bool} {m : Main}
      → Step (sys r none d m Worker.locking) (sys r (some worker) d m testing)
  wait :
      {d : Bool} {o : Option Who} {m : Main}
      → Step (sys false o d m testing) (sys false none d m waiting)
  relock : {r d : Bool} {m : Main} → Step (sys r none d m waking) (sys r (some worker) d m testing)
  proceed :
      {d : Bool} {o : Option Who} {m : Main}
      → Step (sys true o d m testing) (sys true o d m Worker.unlocking)
  leave :
      {r d : Bool} {o : Option Who} {m : Main}
      → Step (sys r o d m Worker.unlocking) (sys r none d m Worker.returned)

abbrev pub init : System
init = record {
  ready = false;
  mutex = none;
  is_destroyed = false;
  at_main = creating;
  at_worker = absent;
}

-- The states that `k` steps and `j` wake-ups for no reason lead to.
pub data Run : (k j : ℕ) → System → Type 0 where
  start : Run 0 0 init
  next : {k j : ℕ} {s u : System} → Run k j s → Step s u → Run (suc k) j u
  spurious :
      {k j : ℕ} {s : System}
      → Run k j s
      → s.at_worker ≡ waiting
      → Run k (suc j) (record s { at_worker = waking })
