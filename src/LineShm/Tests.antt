-- ===== src/LineShm/Tests.antt =====
-- The server and the client of src/27.orange_problem_2_server.c and src/27.orange_problem_2_client.c at
-- concrete events, and the theorems at such events.
use qnx_box.Prelude.{
  ℕ, ◌+◌, ◌≤◌, ◌≡◌, ◌++◌, refl, true, false, none, some, List, [], ◌∷◌, arith, update, length,
}
use qnx_box.CString.{IsText, zeros, length-zeros}
use qnx_box.Shm.World.{at, World, error, enosys}
use qnx_box.Shm.Create.{Os}
use qnx_box.Shm.Server.{Server, Message, initial}
use qnx_box.LineShm.Server.{on_message}
use qnx_box.LineShm.Client.{shm_size, Said, Outcomes, start}
use qnx_box.LineShm.Start.{typed_from_start}

abbrev io_max : ℕ
io_max = 0x1ff

-- mmap gives the address 8 in this round, and every call succeeds.
abbrev good : Os
good = record {
  open_fd = some 3;
  truncate_ok = true;
  map_addr = some 8;
  new_handle = some 42;
  reply_ok = true;
  errno_value = 0;
}

-- A client whose memory is mapped at the address 7.
abbrev connected : Server
connected = record {
  client_scoid = 5;
  shm_memory_size = shm_size;
  shm_ptr = at 7;
  mem_handle = some 42;
}

abbrev holding : World
holding = record { is_open = λ _. false; size_at = update (λ _. none) 7 (some shm_size) }

-- RELEASE_SHM_MSG_TYPE
abbrev release : Message
release = record { rcvid = 13; scoid = 5; pid = 9; type = io_max + 202; at4 = 0; at8 = 0 }

release_is_unknown : on_message io_max good connected release ≡ (connected, error 13 enosys ∷ [])
unfolding on_message
release_is_unknown = refl

abbrev two_lines : List ℕ
two_lines = b'h' ∷ b'i' ∷ 10 ∷ b'y' ∷ b'o' ∷ b'u' ∷ 10 ∷ []

two_lines-IsText : IsText two_lines
two_lines-IsText = ground arith

abbrev all_ok : Outcomes
all_ok = record {
  name_open_ok = true;
  open_handle_ok = true;
  map_ok = true;
  on_get = good;
  on_changed = good;
}

typed_from_start_example :
    (said : Said) × (start io_max 12 5 9 all_ok 7 (zeros shm_size) two_lines (initial 0)
      ≡ some said)
    × (said.out ++ said.rest ≡ two_lines)
    × (length two_lines ≤ 7 → said.out ≡ two_lines)
typed_from_start_example =
    typed_from_start io_max 12 5 9 all_ok
      (record {
        name_open = refl;
        open_handle = refl;
        map = refl;
        granted = record {
          fd = 3;
          addr = 8;
          handle = 42;
          open_fd = refl;
          truncate = refl;
          map_addr = refl;
          new_handle = refl;
          get_reply = refl;
        };
        changed_reply = refl;
      })
      7 (zeros shm_size) two_lines (initial 0) two_lines-IsText (length-zeros shm_size)
