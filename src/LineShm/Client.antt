-- ===== src/LineShm/Client.antt =====
-- The loop of src/27.orange_problem_2_client.c, behind the exchange that maps the object, and the server
-- that prints what the client types. The input is the list of the bytes to come on stdin.
use qnx_box.Prelude.{
  ℕ, zero, suc, ◌+◌, ◌-◌, Bool, true, false, List, [], ◌∷◌, ◌++◌, if◌then◌else◌, length, not, ◌&&◌,
  Option, none, some,
}
use qnx_box.CString.{c_string, fgets, after_line, zeros}
use qnx_box.Shm.World.{Call, reply}
use qnx_box.Shm.Contents.{write_at, printed, contents}
use qnx_box.Shm.Create.{Os}
use qnx_box.Shm.Server.{Server, Message}
use qnx_box.LineShm.Server.{on_message}

abbrev pub shm_size : ℕ
shm_size = 4096

-- The array `msg` after fgets.
unfoldable pub message_line : List ℕ → List ℕ
message_line input = fgets input (zeros shm_size)

-- strlen
unfoldable pub msg_len : List ℕ → ℕ
unfolding message_line
msg_len input = length (c_string (message_line input))

-- The object after the memcpy to its start.
unfoldable pub typed : List ℕ → List ℕ → List ℕ
unfolding message_line
typed input mem = write_at 0 (c_string (message_line input)) mem

-- CHANGED_SHM_MSG_TYPE, as the server receives it on the connection `scoid` of the process `pid`.
abbrev pub changed_msg : ℕ → ℕ → ℕ → ℕ → ℕ → Message
changed_msg io_max rcvid scoid pid length = record {
  rcvid = rcvid;
  scoid = scoid;
  pid = pid;
  type = io_max + 201;
  at4 = 0;
  at8 = length;
}

-- MsgSend succeeds if the server's last call on the message is MsgReply; otherwise, and where MsgReply
-- fails and MsgError follows, the client exits.
abbrev pub is_replied : List Call → Bool
is_replied [] = false
is_replied (reply rcvid r ∷ []) = true
is_replied (c ∷ cs) = is_replied cs

-- What the server has printed, and the input that is left.
pub record Said : Type 0 where
  pub out : List ℕ
  pub rest : List ℕ

abbrev pub say : List ℕ → Said → Said
say out t = record t { out = out ++ t.out }

-- The first rounds of the loop, with the server's rounds that they call for.
unfoldable pub talk : ℕ → ℕ → Os → Server → (rcvid scoid pid : ℕ) → List ℕ → List ℕ → Said
unfolding msg_len typed
talk zero io_max os s rcvid scoid pid mem input = record { out = []; rest = input }
talk (suc k) io_max os s rcvid scoid pid mem input =
    let (s', cs) = on_message io_max os s (changed_msg io_max rcvid scoid pid (msg_len input)) in
    let here = printed (typed input mem) cs in
    let left = after_line (shm_size - 1) input in
    let more = talk k io_max os s' rcvid scoid pid (contents (typed input mem) cs) left in
    if is_replied cs then say here more else record { out = here; rest = left }

-- The outcomes of the calls in front of the loop, and of the server's in its rounds.
pub record Outcomes : Type 0 where
  pub name_open_ok : Bool
  pub open_handle_ok : Bool  -- shm_open_handle
  pub map_ok : Bool
  pub on_get : Os
  pub on_changed : Os

-- GET_SHM_MSG_TYPE, as the server receives it.
abbrev pub get_msg : ℕ → ℕ → ℕ → ℕ → Message
get_msg io_max rcvid scoid pid = record {
  rcvid = rcvid;
  scoid = scoid;
  pid = pid;
  type = io_max + 200;
  at4 = shm_size;
  at8 = 0;
}

module _ (io_max rcvid scoid pid : ℕ) (o : Outcomes) where
  -- From the reply to the first message on, where the new object holds `mem`; `none` is
  -- exit(EXIT_FAILURE) in front of the loop.
  abbrev pub after_get : ℕ → List ℕ → List ℕ → Server × List Call → Option Said
  after_get k mem input (s, cs) =
      if is_replied cs && o.open_handle_ok && o.map_ok
      then some (talk k io_max o.on_changed s rcvid scoid pid mem input)
      else none

  -- The whole client, up to the round `k` of its loop.
  unfoldable pub start : ℕ → List ℕ → List ℕ → Server → Option Said
  start k mem input s =
      if not o.name_open_ok
      then none
      else after_get k mem input (on_message io_max o.on_get s (get_msg io_max rcvid scoid pid))
