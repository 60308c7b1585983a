-- ===== src/PulseService.antt =====
-- The pulse client and server: src/20.lab_pulse_server.c, src/20.lab_pulse_client.c and
-- src/include/20.msg_def.h. What the kernel and atoi give is the input.
pub mod Session
mod Tests
use qnx_box.Prelude.{ℕ, Bool, Option, none, some, List, [], ◌∷◌, ◌==◌, if◌then◌else◌, ℤ}
use qnx_box.CString.{strlcpy}

abbrev pub max_string_len : ℕ
max_string_len = 256

abbrev pub cs_msg_type : ℕ
cs_msg_type = 1

-- `cs_request_t` and `cs_response_t`
pub record Request : Type 0 where
  pub msg_type : ℕ
  pub string : List ℕ

pub record Response : Type 0 where
  pub status : ℕ
  pub result : ℤ

-- What MsgReceive gives: a failure, a pulse, with rcvid 0, or a message and its rcvid, with what MsgError
-- will return for it.
pub data Received : Type 0 where
  receive_fails : Received
  pulse : (code value : ℕ) → Received
  message : (rcvid : ℕ) → (error_ok : Bool) → Request → Received

pub data ServerLine : Type 0 where
  receive_failed : ServerLine
  got_pulse : (code value : ℕ) → ServerLine
  error_failed : ServerLine

-- ENOSYS is an argument of the server: its value is the system's.
pub data Refusal : Type 0 where
  refusal : (rcvid errno : ℕ) → Refusal

-- The lines, the calls of MsgError, and the status of the exit; `none`: it waits for more.
pub record Served : Type 0 where
  pub lines : List ServerLine
  pub refusals : List Refusal
  pub status : Option ℕ

abbrev pub refused : Refusal → Served → Served
refused r s = record s { refusals = r ∷ s.refusals }

unfoldable pub serve : (enosys : ℕ) → List Received → Served
serve enosys [] = record { lines = []; refusals = []; status = none }
serve enosys (receive_fails ∷ es) = record {
  lines = receive_failed ∷ [];
  refusals = [];
  status = some 1;
}
serve enosys (pulse code value ∷ es) =
    let rest = serve enosys es in record rest { lines = got_pulse code value ∷ rest.lines }
serve enosys (message rcvid error_ok q ∷ es) =
    let rest = serve enosys es in
    refused (refusal rcvid enosys) (
      if error_ok
      then rest
      else record { lines = error_failed ∷ []; refusals = []; status = some 1 })

-- The server from its start.
abbrev pub pulse_server : (enosys : ℕ) → (channel_ok : Bool) → List Received → Option Served
pulse_server enosys channel_ok es = if channel_ok then some (serve enosys es) else none

pub data ClientLine : Type 0 where
  usage : ClientLine
  attempting : (pid chid : ℕ) → ClientLine
  connect_failed : ClientLine
  sending : (string : List ℕ) → ClientLine
  pulse_failed : ClientLine
  send_failed : ClientLine
  checksum : (string : List ℕ) → ℤ → ClientLine
  server_error : (status : ℕ) → ClientLine

-- What the client hands to the kernel for the server.
pub data Sent : Type 0 where
  sent_pulse : (code value : ℕ) → Sent
  sent_message : Request → Sent

-- What the calls of the client return; the reply is `none` where MsgSend returns -1.
pub record Outcomes : Type 0 where
  pub connect_ok : Bool
  pub pulse_ok : Bool
  pub reply : Option Response

pub record Client : Type 0 where
  pub lines : List ClientLine
  pub sent : List Sent
  pub status : ℕ

-- 0xdeadc0de, as an int
abbrev pub pulse_value : ℕ
pulse_value = 3735929054

abbrev pub request : List ℕ → List ℕ → Request
request argument buffer = record { msg_type = cs_msg_type; string = strlcpy argument buffer }

abbrev pub after_send : List ℕ → Option Response → Client
after_send string none = record { lines = send_failed ∷ []; sent = []; status = 1 }
after_send string (some res) =
    if res.status == 0
    then record { lines = checksum string res.result ∷ []; sent = []; status = 0 }
    else record { lines = server_error res.status ∷ []; sent = []; status = 0 }

abbrev pub after_connect : Outcomes → Request → Client
after_connect o q =
    let tail = after_send q.string o.reply in
    if o.pulse_ok
    then record {
      lines = sending q.string ∷ tail.lines;
      sent = sent_pulse 3 pulse_value ∷ sent_message q ∷ [];
      status = tail.status;
    }
    else record {
      lines = sending q.string ∷ pulse_failed ∷ [];
      sent = sent_pulse 3 pulse_value ∷ [];
      status = 1;
    }

-- The client. `atoi` is a parameter, and `buffer` what the request's string holds before.
unfoldable pub pulse_client : (atoi : List ℕ → ℕ) → List ℕ → Outcomes → List (List ℕ) → Client
pulse_client atoi buffer o (prog ∷ program ∷ pid ∷ chid ∷ argument ∷ []) =
    let tail = after_connect o (request argument buffer) in
    if o.connect_ok
    then record tail { lines = attempting (atoi pid) (atoi chid) ∷ tail.lines }
    else record {
      lines = attempting (atoi pid) (atoi chid) ∷ connect_failed ∷ [];
      sent = [];
      status = 1;
    }
pulse_client atoi buffer o _ = record { lines = usage ∷ []; sent = []; status = 1 }
