-- ===== src/Condvar/Ending.antt =====
-- The program of src/13.lab_condvar.c ends: the worker does not miss the signal.
use qnx_box.Prelude.{
  ℕ, ◌+◌, ◌*◌, ◌≤◌, ◌≡◌, refl, ◌⊎◌, inl, inr, Bool, true, false, Option, none, some, arith,
}
use qnx_box.Condvar.{
  Who, main, worker, Main, creating, sleeping, setting, signalling, joining, destroying, Worker,
  absent, testing, waiting, waking, System, sys, Step, create, awake, lock, set, signal, unlock,
  join, destroy, enter, wait, relock, proceed, leave, Run,
}
use qnx_box.Condvar.Invariant.{main_holds, Inv, Run-Inv}

-- Both threads have returned.
abbrev pub IsOver : System → Type 0
IsOver s = (s.at_main ≡ Main.returned) × (s.at_worker ≡ Worker.returned)

abbrev pub Next : System → Type 0
Next s = (u : System) × Step s u

-- What the worker can do while the main thread waits for it.
worker_moves :
    (r : Bool) (o : Option Who) (d : Bool) (m : Main) (w : Worker)
    → Inv (sys r o d m w)
    → main_holds m ≡ false
    → (o ≡ some worker) ⊎ (m ≡ joining)
    → (w ≡ Worker.returned) ⊎ Next (sys r o d m w)
worker_moves r o d m absent inv free why = absurd (ground (arith, inv.made, inv.worker_held))
worker_moves r none d m Worker.locking inv free why = inr (_, enter)
worker_moves r none d m waking inv free why = inr (_, relock)
worker_moves true o d m testing inv free why = inr (_, proceed)
worker_moves false o d m testing inv free why = inr (_, wait)
worker_moves r o d m Worker.unlocking inv free why = inr (_, leave)
worker_moves r o d m Worker.returned inv free why = inl refl
worker_moves r o d m waiting inv free why = absurd (ground (arith, inv.no_miss, inv.worker_held))
worker_moves r (some main) d m w inv free why = absurd (ground (arith, inv.main_held))
worker_moves r (some worker) d m w inv free why = absurd (ground (arith, inv.worker_held))

joins :
    (r : Bool) (o : Option Who) (d : Bool) (w : Worker)
    → w ≡ Worker.returned
    → Next (sys r o d joining w)
joins r o d Worker.returned e = (_, join)
joins r o d w e = absurd (ground arith)

moves :
    (r : Bool) (o : Option Who) (d : Bool) (m : Main) (w : Worker)
    → Inv (sys r o d m w)
    → IsOver (sys r o d m w) ⊎ Next (sys r o d m w)
moves r o d creating w inv = inr (_, create)
moves r o d sleeping w inv = inr (_, awake)
moves r none d Main.locking w inv = inr (_, lock)
moves r (some main) d Main.locking w inv = absurd (ground (arith, inv.main_held))
moves r (some worker) d Main.locking w inv =
    elim (worker_moves r (some worker) d Main.locking w inv refl (inl refl)) [
      | inl gone ↦ absurd (ground (arith, gone, inv.worker_held))
      | inr step ↦ inr step
    ]
moves r o d setting w inv = inr (_, set)
moves r o d signalling w inv = inr (_, signal)
moves r o d Main.unlocking w inv = inr (_, unlock)
moves r o d joining w inv = elim (worker_moves r o d joining w inv refl (inr refl)) [
  | inl gone ↦ inr (joins r o d w gone)
  | inr step ↦ inr step
]
moves r o d destroying w inv = inr (_, destroy)
moves r o d Main.returned w inv = inl (refl, inv.joined refl)

-- The program ends: apart from the wake-ups for no reason, each of which costs at most two steps, there
-- are at most 30 steps, and a state in which there is no step is the end, with both threads returned.
-- The mutex and the condition variable are destroyed only behind the worker's return.
pub condvar_ends :
    {k j : ℕ} {s : System}
    → Run k j s
    → (k ≤ 30 + 2 * j)
      × (IsOver s ⊎ Next s)
      × (s.is_destroyed ≡ true → s.at_worker ≡ Worker.returned)
condvar_ends {s} r =
    let (inv, left) = Run-Inv r in
    (
      omega (arith, left),
      moves s.ready s.mutex s.is_destroyed s.at_main s.at_worker inv,
      λ e. inv.joined (ground (arith, inv.ended e)),
    )
