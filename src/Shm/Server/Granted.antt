-- ===== src/Shm/Server/Granted.antt =====
-- A request for memory in src/24.lab_shm_qnx_server.c for which every system call succeeds.
use qnx_box.Prelude.{ℕ, ◌≤◌, ◌≡◌, true, some, List, [], ◌∷◌, arith}
use qnx_box.Shm.World.{at, Call, opened, mapped, close, reply, handle_reply}
use qnx_box.Shm.Create.{Os, create_shared_memory}
use qnx_box.Shm.Server.{Server, Message, max_size, get_shm}

pub record IsGranted (os : Os) : Type 0 where
  pub fd : ℕ
  pub addr : ℕ
  pub handle : ℕ
  pub open_fd : os.open_fd ≡ some fd
  pub truncate : os.truncate_ok ≡ true
  pub map_addr : os.map_addr ≡ some addr
  pub new_handle : os.new_handle ≡ some handle
  pub get_reply : os.reply_ok ≡ true

-- The server with the client `scoid` and its `size` bytes.
abbrev pub serving : {os : Os} → IsGranted os → ℕ → ℕ → Server
serving h scoid size = record {
  client_scoid = scoid;
  shm_memory_size = size;
  shm_ptr = at h.addr;
  mem_handle = some h.handle;
}

abbrev pub granting_calls : {os : Os} → IsGranted os → (rcvid size : ℕ) → List Call
granting_calls h rcvid size =
    opened h.fd ∷ mapped h.addr size ∷ close h.fd ∷ reply rcvid (handle_reply (some h.handle)) ∷ []

pub get_shm-granted :
    {os : Os} (h : IsGranted os) (s : Server) (m : Message)
    → m.at4 ≤ max_size
    → get_shm os s m ≡ (serving h m.scoid m.at4, granting_calls h m.rcvid m.at4)
unfolding get_shm create_shared_memory
get_shm-granted h s m small =
    rw (h.open_fd, h.truncate, h.map_addr, h.new_handle, h.get_reply) (ground (arith, small))
