-- ===== src/Shm/Tests.antt =====
-- The server of src/24.lab_shm_qnx_server.c at concrete events, and the theorems at such events.
use qnx_box.Prelude.{
  ℕ, ◌+◌, ◌≡◌, refl, inr, true, false, none, some, List, [], ◌∷◌, arith, ◌==◌, if◌then◌else◌,
  update,
}
use qnx_box.Shm.World.{
  at, World, replay, AreSafe, opened, mapped, close, munmap, print_from, copy_to, reply,
  handle_reply, changed_reply, empty_reply,
}
use qnx_box.Shm.Create.{Os, create_shared_memory}
use qnx_box.Shm.Create.Resources.{AreFresh}
use qnx_box.Shm.Server.{
  Server, Message, Event, message, pulse, initial, max_size, changed_shm, on_message, round, serve,
}
use qnx_box.Shm.Server.Answers.{unblocked, on_message-unblocked}
use qnx_box.Shm.Server.Range.{exact_changed, changed_shm-exact}
use qnx_box.Shm.Server.Safety.{serve-AreSafe}
use qnx_box.Shm.Client.{Outcomes, talk, disconnected}
use qnx_box.Shm.Session.{message_and_answer}
use qnx_box.Shm.Ending.{disconnected-replay}
use qnx_box.CString.{zeros, length-zeros}

abbrev io_max : ℕ
io_max = 0x1ff

abbrev resp : List ℕ
resp = b'o' ∷ b'k' ∷ []

abbrev good : Os
good = record {
  open_fd = some 3;
  truncate_ok = true;
  map_addr = some 7;
  new_handle = some 42;
  reply_ok = true;
  errno_value = 0;
}

abbrev empty : World
empty = record { is_open = λ _. false; size_at = λ _. none }

abbrev get : ℕ → Message
get n = record { rcvid = 11; scoid = 5; pid = 9; type = io_max + 200; at4 = n; at8 = 0 }

abbrev changed : ℕ → ℕ → Message
changed off n = record { rcvid = 12; scoid = 5; pid = 9; type = io_max + 201; at4 = off; at8 = n }

abbrev release : Message
release = record { rcvid = 13; scoid = 5; pid = 9; type = io_max + 202; at4 = 0; at8 = 0 }

-- The session of src/24.lab_shm_qnx_client.c with a message of six characters.
abbrev session : List (Event × Os)
session = (message (get 8192), good) ∷ (message (changed 20 6), good) ∷ (message release, good) ∷ []

session_calls :
    serve io_max resp (initial 0) session
    ≡ opened 3
      ∷ mapped 7 8192
      ∷ close 3
      ∷ reply 11 (handle_reply (some 42))
      ∷ print_from (at 7) 20 6
      ∷ copy_to (at 7) 4126 resp
      ∷ reply 12 (changed_reply 4126 2)
      ∷ munmap (at 7) 8192
      ∷ reply 13 empty_reply
      ∷ []
unfolding serve round on_message qnx_box.Shm.Server.get_shm qnx_box.Shm.Server.changed_shm
    qnx_box.Shm.Server.release_shm create_shared_memory
session_calls = refl

good-AreFresh : AreFresh empty good
good-AreFresh = record { fd = λ n e. refl; addr = λ a e. refl }

abbrev no_space : Os
no_space = record good { truncate_ok = false }

no_space-AreFresh : AreFresh empty no_space
no_space-AreFresh = record { fd = λ n e. refl; addr = λ a e. refl }

on_message-unblocked_example :
    unblocked good 12 (on_message io_max resp good (initial 0) (changed 20 6)).1
    ≡ (if 12 == 12 then 1 else 0)
on_message-unblocked_example = on_message-unblocked good (initial 0) (changed 20 6) io_max resp 12

-- A client with a mapping of `n` bytes at address 7.
abbrev connected : ℕ → Server
connected n = record { client_scoid = 5; shm_memory_size = n; shm_ptr = at 7; mem_handle = some 42 }

abbrev holding : ℕ → World
holding n = record { is_open = λ _. false; size_at = update (λ _. none) 7 (some n) }

abbrev other : Os
other = record good { map_addr = none }

serve-AreSafe_example :
    AreSafe
      (holding 8192)
      (serve io_max resp (connected 8192) ((message (changed 20 6), other) ∷ []))
serve-AreSafe_example =
    serve-AreSafe io_max resp (holding 8192) (connected 8192) ((message (changed 20 6), other) ∷ [])
      (inr (record { addr = 7; ptr = refl; size = refl; small = omega arith; room = omega arith }))
      (
        (omega arith, λ e. absurd (omega arith)),
        record { fd = λ n e. refl; addr = λ a e. cc },
        λ r e. tt,
      )

abbrev all_ok : Outcomes
all_ok = record {
  name_open_ok = true;
  open_handle_ok = true;
  map_ok = true;
  on_get = good;
  on_changed = good;
  on_release = good;
}

abbrev hello : List ℕ
hello = b'h' ∷ b'i' ∷ []

message_and_answer_example :
    let t = talk 12 5 9 io_max resp all_ok hello (zeros 8192) (initial 0) in
    (t.ok ≡ true) × (t.out ≡ hello) × (t.shown ≡ some resp) × (t.server.client_scoid ≡ 0)
message_and_answer_example =
    message_and_answer 12 5 9 io_max resp all_ok hello (zeros 8192) (initial 0)
      (record {
        name_open = refl;
        open_handle = refl;
        map = refl;
        granted = record {
          fd = 3;
          addr = 7;
          handle = 42;
          open_fd = refl;
          truncate = refl;
          map_addr = refl;
          new_handle = refl;
          get_reply = refl;
        };
        changed_reply = refl;
        release_reply = refl;
      })
      (length-zeros 8192) (omega arith) (omega arith)

-- The client cannot map the object, and exits.
abbrev client_exits : Outcomes
client_exits = record all_ok { map_ok = false }

disconnected-replay_example :
    let t = disconnected 12 5 9 io_max resp client_exits hello (zeros 8192) (initial 0) in
    (t.server.client_scoid ≡ 0) × ((b : ℕ) → (replay empty t.calls).size_at b ≡ none)
disconnected-replay_example =
    disconnected-replay 5 (omega arith) empty 12 9 io_max resp client_exits hello (zeros 8192)
      (initial 0) refl good-AreFresh

-- The sum of these two wraps to 5.
changed_shm-exact_example :
    changed_shm resp good (connected 8192) (changed 4294967295 6)
    ≡ exact_changed resp good (connected 8192) (changed 4294967295 6)
changed_shm-exact_example =
    changed_shm-exact resp good (connected 8192) (changed 4294967295 6) refl (omega arith)
      (omega arith) (omega arith)
