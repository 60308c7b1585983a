-- ===== src/Shm/Create.antt =====
-- `create_shared_memory` of src/24.lab_shm_qnx_server.c, with the outcomes of the system calls as
-- its input and the calls that it makes as part of its output. Its printf lines are left out.
pub mod Resources
use qnx_box.Prelude.{ℕ, Bool, true, false, Option, none, some, List, [], ◌∷◌, if◌then◌else◌}
use qnx_box.Shm.World.{Ptr, map_failed, at, Call, opened, close, mapped, munmap}

-- How the calls of one round of the server's loop turn out: `none` and `false` stand for -1.
pub record Os : Type 0 where
  pub open_fd : Option ℕ  -- shm_open
  pub truncate_ok : Bool  -- ftruncate
  pub map_addr : Option ℕ  -- mmap
  pub new_handle : Option ℕ  -- shm_create_handle
  pub reply_ok : Bool  -- MsgReply
  pub errno_value : ℕ  -- `errno` after a failure

-- The return value (0 or -1), what was stored through `ptr` and `handle`, and the calls.
pub record Created : Type 0 where
  pub ok : Bool
  pub ptr : Ptr
  pub handle : Option ℕ
  pub calls : List Call

-- From `shm_create_handle` on, with the descriptor and the new mapping.
create_handle : Os → ℕ → ℕ → ℕ → Option ℕ → Created
create_handle os nbytes fd addr handle = elim os.new_handle [
  | none ↦ record {
    ok = false;
    ptr = at addr;
    handle = handle;
    calls = opened fd ∷ mapped addr nbytes ∷ close fd ∷ munmap (at addr) nbytes ∷ [];
  }
  | some h ↦ record {
    ok = true;
    ptr = at addr;
    handle = some h;
    calls = opened fd ∷ mapped addr nbytes ∷ close fd ∷ [];
  }
]

-- From `mmap` on, with the descriptor.
create_map : Os → ℕ → ℕ → Option ℕ → Created
unfolding create_handle
create_map os nbytes fd handle = elim os.map_addr [
  | none ↦ record {
    ok = false;
    ptr = map_failed;
    handle = handle;
    calls = opened fd ∷ close fd ∷ [];
  }
  | some addr ↦ create_handle os nbytes fd addr handle
]

-- From `ftruncate` on. When it fails the function returns without closing `fd`.
create_truncate : Os → ℕ → ℕ → Ptr → Option ℕ → Created
unfolding create_map
create_truncate os nbytes fd ptr handle =
    if os.truncate_ok
    then create_map os nbytes fd handle
    else record { ok = false; ptr = ptr; handle = handle; calls = opened fd ∷ [] }

unfoldable pub create_shared_memory : Os → ℕ → Ptr → Option ℕ → Created
unfolding create_truncate
create_shared_memory os nbytes ptr handle = elim os.open_fd [
  | none ↦ record { ok = false; ptr = ptr; handle = handle; calls = [] }
  | some fd ↦ create_truncate os nbytes fd ptr handle
]
