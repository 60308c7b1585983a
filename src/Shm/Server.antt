-- ===== src/Shm/Server.antt =====
-- The message loop of src/24.lab_shm_qnx_server.c. The number `_IO_MAX` of the system header is the
-- parameter `io_max`. A round of the loop takes what MsgReceive returned and the outcomes of the
-- system calls, and gives the new state with the calls in the order in which they are made.
pub mod Answers
pub mod Flaws
pub mod Granted
pub mod Range
pub mod Safety
use qnx_box.Prelude.{
  ℕ, ◌+◌, ◌*◌, ◌%◌, ◌^◌, Bool, not, ◌||◌, Option, none, some, List, [], ◌∷◌, ◌++◌, ltb, ◌==◌,
  if◌then◌else◌, length,
}
use qnx_box.Shm.World.{
  Ptr, unset, einval, eperm, ebadmsg, enosys, errno, Reply, handle_reply, changed_reply,
  empty_reply, Call, munmap, print_from, copy_to, reply, error, detach,
}
use qnx_box.Shm.Create.{Os, create_shared_memory}

-- The local variables of `qnx_lab_shm_qnx_server` that live across rounds.
pub record Server : Type 0 where
  pub client_scoid : ℕ
  pub shm_memory_size : ℕ  -- unsigned int
  pub shm_ptr : Ptr
  pub mem_handle : Option ℕ  -- get_resp.mem_handle

-- A received message: `msg_info`, and the fields of the union at the offsets 0, 4 and 8.
pub record Message : Type 0 where
  pub rcvid : ℕ
  pub scoid : ℕ
  pub pid : ℕ
  pub type : ℕ
  pub at4 : ℕ
  pub at8 : ℕ

abbrev pub shared_mem_bytes : Message → ℕ
shared_mem_bytes m = m.at4

abbrev pub offset : Message → ℕ
offset m = m.at4

abbrev pub len : Message → ℕ
len m = m.at8

-- What MsgReceive returned: -1, a pulse, or a message.
pub data Event : Type 0 where
  receive_failed : Event
  pulse : (is_disconnect : Bool) → (scoid : ℕ) → Event
  message : Message → Event

-- Before the loop: no client; the other variables hold whatever was in memory.
abbrev pub initial : ℕ → Server
initial garbage = record {
  client_scoid = 0;
  shm_memory_size = garbage;
  shm_ptr = unset;
  mem_handle = none;
}

abbrev pub u32 : ℕ → ℕ
u32 n = n % 2 ^ 32

abbrev pub max_size : ℕ
max_size = 64 * 1024

abbrev pub resp_offset : ℕ
resp_offset = 4096 + 30

-- `if (MsgReply(...) == -1) MsgError(rcvid, errno)`
abbrev pub reply_or_error : Os → ℕ → Reply → List Call
reply_or_error os rcvid r =
    if os.reply_ok
    then reply rcvid r ∷ []
    else reply rcvid r ∷ error rcvid (errno os.errno_value) ∷ []

unfoldable pub on_pulse : Server → Bool → ℕ → Server × List Call
on_pulse s is_disconnect scoid =
    if not is_disconnect
    then (s, [])
    else if scoid == s.client_scoid
    then (record s { client_scoid = 0 }, munmap s.shm_ptr s.shm_memory_size ∷ detach scoid ∷ [])
    else (s, detach scoid ∷ [])

-- GET_SHM_MSG_TYPE
unfoldable pub get_shm : Os → Server → Message → Server × List Call
get_shm os s m =
    let size = shared_mem_bytes m in
    let c = create_shared_memory os size s.shm_ptr s.mem_handle in
    if ltb max_size size
    then (record s { shm_memory_size = size }, error m.rcvid einval ∷ [])
    else if not c.ok
    then (
      record s { shm_memory_size = size; shm_ptr = c.ptr; mem_handle = c.handle },
      c.calls ++ error m.rcvid (errno os.errno_value) ∷ [],
    )
    else (
      record {
        client_scoid = m.scoid;
        shm_memory_size = size;
        shm_ptr = c.ptr;
        mem_handle = c.handle;
      },
      c.calls ++ reply_or_error os m.rcvid (handle_reply c.handle),
    )

-- The test of CHANGED_SHM_MSG_TYPE that answers EBADMSG; the sum is a sum of unsigned int.
unfoldable pub is_bad_range : ℕ → ℕ → ℕ → Bool
is_bad_range size off nbytes = ltb size nbytes || ltb size off || ltb size (u32 (nbytes + off))

-- CHANGED_SHM_MSG_TYPE
unfoldable pub changed_shm : List ℕ → Os → Server → Message → Server × List Call
unfolding is_bad_range
changed_shm resp os s m =
    if not (m.scoid == s.client_scoid)
    then (s, error m.rcvid eperm ∷ [])
    else if is_bad_range s.shm_memory_size (offset m) (len m)
    then (s, error m.rcvid ebadmsg ∷ [])
    else (
      s,
      print_from s.shm_ptr (offset m) (len m)
          ∷ copy_to s.shm_ptr resp_offset resp
          ∷ reply_or_error os m.rcvid (changed_reply resp_offset (length resp)),
    )

-- RELEASE_SHM_MSG_TYPE
unfoldable pub release_shm : Os → Server → Message → Server × List Call
release_shm os s m = if not (m.scoid == s.client_scoid) then (s, error m.rcvid eperm ∷ []) else (
  record s { client_scoid = 0 },
  munmap s.shm_ptr s.shm_memory_size ∷ reply_or_error os m.rcvid empty_reply,
)

module _ (io_max : ℕ) (resp : List ℕ) where
  -- The `switch` on the message's type.
  unfoldable pub on_message : Os → Server → Message → Server × List Call
  on_message os s m =
      if m.type == io_max + 200
      then get_shm os s m
      else if m.type == io_max + 201
      then changed_shm resp os s m
      else if m.type == io_max + 202
      then release_shm os s m
      else (s, error m.rcvid enosys ∷ [])

  -- One round of `while (1)`; `none` is exit(EXIT_FAILURE).
  unfoldable pub round : Os → Server → Event → Option (Server × List Call)
  round os s receive_failed = none
  round os s (pulse d scoid) = some (on_pulse s d scoid)
  round os s (message m) = some (on_message os s m)

  -- The loop over the events that arrive: every call, up to the exit or the end of the events.
  unfoldable pub serve : Server → List (Event × Os) → List Call
  serve s [] = []
  serve s ((e, os) ∷ es) = elim (round os s e) [ none ↦ [] | some (s', cs) ↦ cs ++ serve s' es ]
