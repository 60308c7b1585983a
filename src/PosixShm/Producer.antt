-- ===== src/PosixShm/Producer.antt =====
-- src/23.lab_shm_posix_producer.c up to the assignment to `init_flag`: the calls that it makes with the
-- object under the outcomes of the system calls. Its printf lines are left out.
use qnx_box.Prelude.{
  ℕ, ◌≡◌, Bool, true, false, Option, List, [], ◌∷◌, if◌then◌else◌, arith, ◌&&◌, not,
}
use qnx_box.PosixShm.{shm_object_name}

-- The argument, tested as the consumer does it.
abbrev pub object_name : List (List ℕ) → Option (List ℕ)
object_name = shm_object_name

-- The calls that succeed and the assignment; and exit(EXIT_FAILURE).
pub data Call : Type 0 where
  created : Call  -- shm_open with O_CREAT | O_EXCL
  truncated : Call  -- ftruncate
  mapped : Call  -- mmap
  close : Call
  mutex_made : Call  -- pthread_mutex_init
  cond_made : Call  -- pthread_cond_init
  set_flag : Call  -- `ptr->init_flag = 1`
  unlink : Call  -- shm_unlink
  exit : Call

-- Whether the calls succeed; `create_ok` where the object does not exist before.
pub record Os : Type 0 where
  pub create_ok : Bool
  pub truncate_ok : Bool
  pub map_ok : Bool
  pub mutex_ok : Bool
  pub cond_ok : Bool

abbrev pub unlink_and_exit : List Call
unlink_and_exit = unlink ∷ exit ∷ []

abbrev pub init_cond : Os → List Call
init_cond os = if os.cond_ok then cond_made ∷ set_flag ∷ [] else unlink_and_exit

abbrev pub init_mutex : Os → List Call
init_mutex os = if os.mutex_ok then mutex_made ∷ init_cond os else unlink_and_exit

abbrev pub map_object : Os → List Call
map_object os = if os.map_ok then mapped ∷ close ∷ init_mutex os else unlink_and_exit

abbrev pub size_object : Os → List Call
size_object os = if os.truncate_ok then truncated ∷ map_object os else unlink_and_exit

-- shm_open fails where the object exists.
unfoldable pub create_object : Os → (existed : Bool) → List Call
create_object os existed =
    if os.create_ok && not existed then created ∷ size_object os else exit ∷ []

-- The object as others see it by its name, and whether the process runs.
pub record World : Type 0 where
  pub exists : Bool
  pub has_size : Bool
  pub mutex_ready : Bool
  pub cond_ready : Bool
  pub init_flag : Bool
  pub runs : Bool

abbrev pub apply : World → Call → World
apply w created = record w { exists = true }
apply w truncated = record w { has_size = true }
apply w mutex_made = record w { mutex_ready = true }
apply w cond_made = record w { cond_ready = true }
apply w set_flag = record w { init_flag = true }
apply w unlink = record w { exists = false }
apply w exit = record w { runs = false }
apply w _ = w

-- The predicate holds before, between and after the calls.
abbrev pub Always : (World → Type 0) → World → List Call → Type 0
Always P w [] = P w
Always P w (c ∷ cs) = P w × Always P (apply w c) cs

abbrev pub replay : World → List Call → World
replay w [] = w
replay w (c ∷ cs) = replay (apply w c) cs

-- There is no object of the name.
abbrev pub nothing : World
nothing = record {
  exists = false;
  has_size = false;
  mutex_ready = false;
  cond_ready = false;
  init_flag = false;
  runs = true;
}

-- Who sees the flag set finds the object whole.
abbrev pub IsReady : World → Type 0
IsReady w =
    w.init_flag ≡ true
    → (w.exists ≡ true) × (w.has_size ≡ true) × (w.mutex_ready ≡ true) × (w.cond_ready ≡ true)

-- Where there is no object of the name: at no time is the flag set before the size, the mutex and the
-- condition variable are there; and at the end either the process runs, with the flag set, or it has
-- exited and the name is free again. It runs exactly if every call succeeds. Where there is an object, the
-- process exits and leaves it as it is.
pub create_object_lem :
    (os : Os)
    → Always IsReady nothing (create_object os false)
      × (let w = replay nothing (create_object os false) in
          (w.runs ≡ (os.create_ok && os.truncate_ok && os.map_ok && os.mutex_ok && os.cond_ok))
          × (w.exists ≡ w.runs)
          × (w.init_flag ≡ w.runs))
      × (create_object os true ≡ exit ∷ [])
unfolding create_object
create_object_lem os = ground arith
