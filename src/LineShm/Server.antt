-- ===== src/LineShm/Server.antt =====
-- The message loop of src/27.orange_problem_2_server.c. The number `_IO_MAX` of the system header is the
-- parameter `io_max`.
use qnx_box.Prelude.{
  ℕ, ◌+◌, Bool, not, Option, none, some, List, [], ◌∷◌, ◌++◌, ◌==◌, if◌then◌else◌,
}
use qnx_box.Shm.World.{Ptr, eperm, ebadmsg, enosys, empty_reply, Call, print_from, reply, error}
use qnx_box.Shm.Create.{Os, Created}
use qnx_box.Shm.Create
use qnx_box.Shm.Server
use qnx_box.Shm.Server.{
  Server, Message, offset, len, Event, receive_failed, pulse, message, reply_or_error, is_bad_range,
}
pub mod Safety

-- The same text as in the other server.
abbrev pub create_shared_memory : Os → ℕ → Ptr → Option ℕ → Created
create_shared_memory = Create.create_shared_memory

abbrev pub on_pulse : Server → Bool → ℕ → Server × List Call
on_pulse = Server.on_pulse

abbrev pub get_shm : Os → Server → Message → Server × List Call
get_shm = Server.get_shm

-- CHANGED_SHM_MSG_TYPE
unfoldable pub changed_shm : Os → Server → Message → Server × List Call
changed_shm os s m =
    if not (m.scoid == s.client_scoid)
    then (s, error m.rcvid eperm ∷ [])
    else if is_bad_range s.shm_memory_size (offset m) (len m)
    then (s, error m.rcvid ebadmsg ∷ [])
    else (s, print_from s.shm_ptr (offset m) (len m) ∷ reply_or_error os m.rcvid empty_reply)

module _ (io_max : ℕ) where
  -- The `switch` on the message's type; RELEASE_SHM_MSG_TYPE is not among its cases.
  unfoldable pub on_message : Os → Server → Message → Server × List Call
  on_message os s m =
      if m.type == io_max + 200
      then get_shm os s m
      else if m.type == io_max + 201
      then changed_shm os s m
      else (s, error m.rcvid enosys ∷ [])

  -- One round of `while (1)`; `none` is exit(EXIT_FAILURE).
  unfoldable pub round : Os → Server → Event → Option (Server × List Call)
  round os s receive_failed = none
  round os s (pulse d scoid) = some (on_pulse s d scoid)
  round os s (message m) = some (on_message os s m)

  -- The loop over the events that arrive: every call, up to the exit or the end of the events.
  unfoldable pub serve : Server → List (Event × Os) → List Call
  serve s [] = []
  serve s ((e, os) ∷ es) = elim (round os s e) [ none ↦ [] | some (s', cs) ↦ cs ++ serve s' es ]
