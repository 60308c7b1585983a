-- ===== src/Shm/Client.antt =====
-- src/24.lab_shm_qnx_client.c with the server of src/24.lab_shm_qnx_server.c: the client's three messages,
-- what the server does on each, and what both print of the object that they share.
use qnx_box.Prelude.{
  ℕ, ◌+◌, Bool, true, false, Option, none, some, List, [], ◌∷◌, ◌++◌, if◌then◌else◌, length, not,
  ◌&&◌,
}
use qnx_box.Shm.World.{Reply, changed_reply, Call, reply}
use qnx_box.Shm.Contents.{read_at, write_at, printed, contents}
use qnx_box.Shm.Create.{Os}
use qnx_box.Shm.Server.{Server, Message, on_message, on_pulse, u32}

-- The message to send, from `argv`; `none` is exit(EXIT_FAILURE).
abbrev pub message_arg : List (List ℕ) → Option (List ℕ)
message_arg (program ∷ lab ∷ msg ∷ []) = some msg
message_arg _ = none

-- The outcomes of the client's calls, and of the server's in each of the three rounds.
pub record Outcomes : Type 0 where
  pub name_open_ok : Bool
  pub open_handle_ok : Bool  -- shm_open_handle
  pub map_ok : Bool
  pub on_get : Os
  pub on_changed : Os
  pub on_release : Os

-- What MsgSend gives: the reply to it; `none` where it returns -1, since the server does not reply or its
-- MsgReply fails and MsgError follows.
abbrev pub replied : List Call → Option Reply
replied [] = none
replied (reply rcvid r ∷ []) = some r
replied (c ∷ cs) = replied cs

-- `changed_res`
abbrev pub res_offset : Reply → ℕ
res_offset (changed_reply off len) = off
res_offset _ = 0

abbrev pub res_length : Reply → ℕ
res_length (changed_reply off len) = len
res_length _ = 0

-- How it goes: the server's state afterwards, what it printed of the object, what the client did, the
-- server's calls, and whether the client returns EXIT_SUCCESS.
pub record Session : Type 0 where
  pub server : Server
  pub out : List ℕ
  pub shown : Option (List ℕ)
  pub calls : List Call
  pub ok : Bool

-- exit(EXIT_FAILURE), after the server's last calls.
abbrev pub stop : Server → List Call → Session
stop s cs = record { server = s; out = []; shown = none; calls = cs; ok = false }

abbrev pub after : List Call → Session → Session
after cs t = record t { calls = cs ++ t.calls }

abbrev pub shows : List ℕ → List ℕ → Session → Session
shows out shown t = record t { out = out ++ t.out; shown = some shown }

-- The end, by what the server did on the last message.
abbrev pub after_release : Server × List Call → Session
after_release (s, cs) = record {
  server = s;
  out = [];
  shown = none;
  calls = cs;
  ok = elim (replied cs) [ none ↦ false | some r ↦ true ];
}

module _ (rcvid scoid pid : ℕ) where
  -- A message, as the server receives it.
  abbrev pub sent : ℕ → ℕ → ℕ → Message
  sent type at4 at8 = record {
    rcvid = rcvid;
    scoid = scoid;
    pid = pid;
    type = type;
    at4 = at4;
    at8 = at8;
  }

  module _ (io_max : ℕ) (resp : List ℕ) (o : Outcomes) (msg : List ℕ) where
    abbrev pub send_release : Server → Session
    send_release s = after_release (on_message io_max resp o.on_release s (sent (io_max + 202) 0 0))

    -- From the object after the memcpy on, by what the server did on the second message.
    abbrev pub after_changed : List ℕ → Server × List Call → Session
    after_changed copied (s, cs) =
        let there = printed copied cs in
        elim (replied cs) [
          | none ↦ record (stop s cs) { out = there }
          | some r ↦
              let mine = read_at (res_offset r) (res_length r) (contents copied cs) in
              after cs (shows there mine (send_release s))
        ]

    -- From the memcpy into the object on. The bytes beyond the object are not modelled.
    abbrev pub send_changed : List ℕ → Server → Session
    send_changed mem s =
        after_changed (write_at 20 msg mem)
          (on_message io_max resp o.on_changed s (sent (io_max + 201) 20 (u32 (length msg))))

    -- From the reply to the first message on, where the new object holds `mem`.
    abbrev pub after_get : List ℕ → Server × List Call → Session
    after_get mem (s, cs) = elim (replied cs) [
      | none ↦ stop s cs
      | some r ↦ if o.open_handle_ok && o.map_ok then after cs (send_changed mem s) else stop s cs
    ]

    unfoldable pub talk : List ℕ → Server → Session
    talk mem s =
        if not o.name_open_ok
        then stop s []
        else after_get mem (on_message io_max resp o.on_get s (sent (io_max + 200) 8192 0))

    -- When the client has ended, its connection goes, and the server gets the pulse.
    unfoldable pub disconnected : List ℕ → Server → Session
    disconnected mem s =
        let t = talk mem s in
        let (s', cs) = on_pulse t.server true scoid in
        record t { server = s'; calls = t.calls ++ cs }
