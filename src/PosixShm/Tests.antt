-- ===== src/PosixShm/Tests.antt =====
-- The theorems on src/23.lab_shm_posix_consumer.c and src/23.lab_shm_posix_producer.c at concrete inputs.
use qnx_box.Prelude.{
  none, some, [], ◌∷◌, ◌*◌, ◌++◌, ◌≤◌, ◌≡◌, refl, true, false, ◌&&◌, ◌==◌, arith, length,
}
use qnx_box.CString.{codes}
use qnx_box.PosixShm.Exchange.{
  data_update, initialize, awake, lock, read, count, print, printed, unlock, start, enter, wait,
  relock, go_on, copy, copy_text, leave, show, System, produce, broadcast, consume, init, Reach,
  here, next,
}
use qnx_box.PosixShm.Producer.{
  created, truncated, unlink, exit, create_object, Always, IsReady, replay, nothing,
  create_object_lem,
}
use qnx_box.PosixShm.Producer
use qnx_box.PosixShm.Exchange.Invariant.{AreWhole}
use qnx_box.PosixShm.Exchange.Printing.{texts_whole, IsFalling, versions_rise}
use qnx_box.PosixShm.{retry, Outcome, shm_object_name, Os, get_shared_memory_pointer}
use qnx_box.PosixShm.Retries.{any_success, get_shared_memory_pointer_lem}

-- The object is there at the third try, and mmap always fails.
abbrev no_mapping : Os
no_mapping = record { opens = λ i. i == 2; maps = λ i. false; is_initialized = λ i. true }

get_shared_memory_pointer_lem_example :
    (r : Outcome) × (get_shared_memory_pointer no_mapping 5 4 ≡ some r)
    × (r.ok ≡ (
        any_success no_mapping.opens 0 4
        && any_success no_mapping.maps 0 4
        && any_success no_mapping.is_initialized 0 4))
    × (r.is_mapped ≡ r.ok)
    × (r.is_open ≡ true)
    × (r.sleeps ≤ 3 * 4)
get_shared_memory_pointer_lem_example =
    get_shared_memory_pointer_lem no_mapping 5 4 (omega arith) (omega arith)

-- Two seconds for the object, four for the mapping; the descriptor leaks.
leaks_after_six :
    get_shared_memory_pointer no_mapping 5 4
    ≡ some (record { ok = false; is_mapped = false; is_open = true; sleeps = 6 })
unfolding get_shared_memory_pointer retry
leaks_after_six = refl

slash_wanted :
    (shm_object_name (codes "box" ∷ codes "shm" ∷ codes "/obj" ∷ []) ≡ some (codes "/obj"))
    × (shm_object_name (codes "box" ∷ codes "shm" ∷ codes "obj" ∷ []) ≡ none)
slash_wanted = (refl, refl)

abbrev Run : Type 0
Run = (s : System) × Reach init s

-- Consumer 0 finds the version 0 and waits; the producer makes the version 1 and has yet to signal it.
abbrev asleep : Run
asleep =
    let r = next (next here (produce initialize)) (consume 0 (start refl)) in
    let r = next (next r (consume 0 (enter refl))) (consume 0 (wait refl)) in
    let r = next (next (next r (produce awake)) (produce (lock refl))) (produce read) in
    let r = next (next (next r (produce count)) (produce print)) (produce printed) in
    (_, next r (produce unlock))

-- It is signalled, and prints the version 1.
abbrev one_shown : Run
one_shown =
    let r = next (next asleep.1 (broadcast refl)) (consume 0 (relock refl)) in
    let r = next (next r (consume 0 (go_on (omega arith)))) (consume 0 copy) in
    let r = next (next r (consume 0 copy_text)) (consume 0 leave) in (_, next r (consume 0 show))

shown_is_one : (one_shown.0.consumer 0).shown ≡ (1, some (codes "data update: 1" ++ 10 ∷ [])) ∷ []
unfolding data_update
shown_is_one = refl

-- The largest version fits into the text.
longest_fits : length (data_update 18446744073709551615) ≡ 34
unfolding data_update
longest_fits = refl

texts_whole_example : AreWhole (one_shown.0.consumer 0).shown
texts_whole_example = texts_whole one_shown.1 0

versions_rise_example : IsFalling 2 (one_shown.0.consumer 0).shown
versions_rise_example = versions_rise one_shown.1 (omega arith) 0

-- mmap fails.
abbrev unmappable : Producer.Os
unmappable = record {
  create_ok = true;
  truncate_ok = true;
  map_ok = false;
  mutex_ok = true;
  cond_ok = true;
}

create_object_lem_example :
    Always IsReady nothing (create_object unmappable false)
    × (let w = replay nothing (create_object unmappable false) in
        (w.runs ≡ false) × (w.exists ≡ w.runs) × (w.init_flag ≡ w.runs))
    × (create_object unmappable true ≡ exit ∷ [])
create_object_lem_example = create_object_lem unmappable
