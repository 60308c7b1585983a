-- ===== src/Condvar/Tests.antt =====
-- A run of src/13.lab_condvar.c in which the worker waits, and the theorem at it.
use qnx_box.Prelude.{◌+◌, ◌*◌, ◌≤◌, ◌≡◌, refl, true, ◌⊎◌}
use qnx_box.Condvar.{
  Worker, System, create, awake, lock, set, signal, unlock, join, destroy, enter, wait, relock,
  proceed, leave, Run, start, next, spurious,
}
use qnx_box.Condvar.Ending.{IsOver, Next, condvar_ends}

-- The worker waits, wakes for no reason and waits again; then it is signalled.
abbrev whole : (s : System) × Run 15 1 s
whole =
    let r = next (next (next start create) enter) wait in
    let r = next (next (spurious r refl) relock) wait in
    let r = next (next (next (next (next r awake) lock) set) signal) unlock in
    let r = next (next (next r relock) proceed) leave in (_, next (next r join) destroy)

condvar_ends_example :
    (15 ≤ 30 + 2 * 1)
    × (IsOver whole.0 ⊎ Next whole.0)
    × (whole.0.is_destroyed ≡ true → whole.0.at_worker ≡ Worker.returned)
condvar_ends_example = condvar_ends whole.1
