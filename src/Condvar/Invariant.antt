-- ===== src/Condvar/Invariant.antt =====
-- What holds of the program of src/13.lab_condvar.c at any time, and the steps that are left.
use qnx_box.Prelude.{ℕ, ◌+◌, ◌*◌, ◌≤◌, ◌<◌, ◌≡◌, refl, ◌⊎◌, Bool, true, false, some, arith}
use qnx_box.Condvar.{
  main, worker, Main, creating, sleeping, setting, signalling, joining, destroying, Worker, absent,
  testing, waiting, waking, System, Step, awake, Run, start, next, spurious,
}

abbrev pub main_holds : Main → Bool
main_holds setting = true
main_holds signalling = true
main_holds Main.unlocking = true
main_holds _ = false

abbrev pub worker_holds : Worker → Bool
worker_holds testing = true
worker_holds Worker.unlocking = true
worker_holds _ = false

-- What the steps of the main thread have done so far.
abbrev pub has_set : Main → Bool
has_set creating = false
has_set sleeping = false
has_set Main.locking = false
has_set setting = false
has_set _ = true

abbrev pub has_joined : Main → Bool
has_joined destroying = true
has_joined Main.returned = true
has_joined _ = false

-- The steps that are left at most, without wake-ups for no reason.
abbrev pub main_left : Main → ℕ
main_left creating = 30
main_left sleeping = 23
main_left Main.locking = 22
main_left setting = 21
main_left signalling = 20
main_left Main.unlocking = 3
main_left joining = 2
main_left destroying = 1
main_left Main.returned = 0

abbrev pub worker_left : Worker → ℕ
worker_left absent = 0
worker_left Worker.locking = 6
worker_left testing = 4
worker_left waiting = 3
worker_left waking = 5
worker_left Worker.unlocking = 2
worker_left Worker.returned = 0

-- The owner of the mutex, the flag, and that who waits will be signalled; what is destroyed is no longer
-- used.
pub record Inv (s : System) : Type 0 where
  pub main_owner : main_holds s.at_main ≡ true → s.mutex ≡ some main
  pub worker_owner : worker_holds s.at_worker ≡ true → s.mutex ≡ some worker
  pub main_held : s.mutex ≡ some main → main_holds s.at_main ≡ true
  pub worker_held : s.mutex ≡ some worker → worker_holds s.at_worker ≡ true
  pub flag : s.ready ≡ has_set s.at_main
  pub no_miss : s.at_worker ≡ waiting → (has_set s.at_main ≡ false) ⊎ (s.at_main ≡ signalling)
  pub made : s.at_worker ≡ absent → s.at_main ≡ creating
  pub unmade : s.at_main ≡ creating → s.at_worker ≡ absent
  pub joined : has_joined s.at_main ≡ true → s.at_worker ≡ Worker.returned
  pub ended : s.is_destroyed ≡ true → s.at_main ≡ Main.returned

Step-Inv :
    {s u : System}
    → Inv s
    → Step s u
    → Inv u
      × (main_left u.at_main + worker_left u.at_worker
          < main_left s.at_main + worker_left s.at_worker)
Step-Inv inv awake = (
  record {
    main_owner = ground (arith, inv.main_owner);
    worker_owner = inv.worker_owner;
    main_held = ground (arith, inv.main_held);
    worker_held = inv.worker_held;
    flag = ground (arith, inv.flag);
    no_miss = ground (arith, inv.no_miss);
    made = ground (arith, inv.made);
    unmade = ground arith;
    joined = ground arith;
    ended = ground (arith, inv.ended);
  },
  ground arith,
)
Step-Inv inv st = (
  record {
    main_owner = ground (arith, inv.main_owner, inv.worker_owner);
    worker_owner = ground (arith, inv.main_owner, inv.worker_owner);
    main_held = ground (arith, inv.main_held, inv.worker_owner);
    worker_held = ground (arith, inv.worker_held, inv.main_owner);
    flag = ground (arith, inv.flag);
    no_miss = ground (arith, inv.no_miss, inv.flag, inv.worker_owner, inv.main_owner);
    made = ground (arith, inv.made);
    unmade = ground (arith, inv.unmade);
    joined = ground (arith, inv.joined);
    ended = ground (arith, inv.ended);
  },
  ground arith,
)

spurious-Inv : {s : System} → Inv s → s.at_worker ≡ waiting → Inv (record s { at_worker = waking })
spurious-Inv inv e = record {
  main_owner = inv.main_owner;
  worker_owner = ground arith;
  main_held = inv.main_held;
  worker_held = ground (arith, inv.worker_held);
  flag = inv.flag;
  no_miss = ground arith;
  made = ground arith;
  unmade = ground (arith, inv.unmade);
  joined = ground (arith, inv.joined);
  ended = inv.ended;
}

pub Run-Inv :
    {k j : ℕ} {s : System}
    → Run k j s
    → Inv s × (k + (main_left s.at_main + worker_left s.at_worker) ≤ 30 + 2 * j)
Run-Inv start = (
  record {
    main_owner = ground arith;
    worker_owner = ground arith;
    main_held = ground arith;
    worker_held = ground arith;
    flag = refl;
    no_miss = ground arith;
    made = λ e. refl;
    unmade = λ e. refl;
    joined = ground arith;
    ended = ground arith;
  },
  omega arith,
)
Run-Inv (next r st) =
    let (inv, left) = Run-Inv r in
    let (inv', less) = Step-Inv inv st in (inv', omega (arith, left, less))
Run-Inv (spurious r e) =
    let (inv, left) = Run-Inv r in (spurious-Inv inv e, ground (arith, left, e))
