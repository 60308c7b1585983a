-- ===== src/NameAttach.antt =====
-- The checksum service: src/21.lab_name_attach_server.c, src/21.lab_name_attach_client.c and
-- src/include/21.msg_def.h. A `char` is signed: a byte from 128 on stands for a negative number.
pub mod Checksum
pub mod Client
pub mod Service
mod Tests
use qnx_box.Prelude.{
  ℕ, ◌-◌, Option, none, some, List, [], ◌∷◌, ◌++◌, ltb, ◌==◌, if◌then◌else◌, ℤ, pos, negsuc, ◌+ℤ◌,
}
use qnx_box.CString.{strlcpy}

abbrev pub max_string_len : ℕ
max_string_len = 256

abbrev pub cksum_msg_type : ℕ
cksum_msg_type = 1

-- The value of a byte as a char.
abbrev pub char_value : ℕ → ℤ
char_value c = if ltb c 128 then pos c else negsuc (255 - c)

-- The loop: `none` is a read behind the end of the array.
unfoldable pub add_chars : ℤ → List ℕ → Option ℤ
add_chars sum [] = none
add_chars sum (c ∷ text) = if c == 0 then some sum else add_chars (sum +ℤ char_value c) text

unfoldable pub calculate_checksum : List ℕ → Option ℤ
calculate_checksum text = add_chars (pos 0) text

-- `cs_request_t`
pub record Request : Type 0 where
  pub msg_type : ℕ
  pub string : List ℕ

-- `cs_response_t`, less the text that is never used
pub record Response : Type 0 where
  pub status : ℕ
  pub result : ℤ

-- What MsgReceive hands out: a pulse, with rcvid 0, or a message and its rcvid.
pub data Received : Type 0 where
  disconnect : (scoid : ℕ) → Received
  cksum_pulse : Received
  other_pulse : Received
  message : (rcvid : ℕ) → Request → Received

pub data Action : Type 0 where
  detach : (scoid : ℕ) → Action
  reply : (rcvid : ℕ) → Response → Action

abbrev pub answered : ℕ → Option ℤ → Option (List Action)
answered rcvid none = none
answered rcvid (some sum) = some (reply rcvid (record { status = 0; result = sum }) ∷ [])

-- One round of the server's loop, as long as MsgReply succeeds: if it fails the server exits.
unfoldable pub handle : Received → Option (List Action)
handle (disconnect scoid) = some (detach scoid ∷ [])
handle cksum_pulse = some []
handle other_pulse = some []
handle (message rcvid q) =
    if q.msg_type == cksum_msg_type then answered rcvid (calculate_checksum q.string) else some []

abbrev pub then_append : Option (List Action) → Option (List Action) → Option (List Action)
then_append none _ = none
then_append (some acts) none = none
then_append (some acts) (some more) = some (acts ++ more)

-- The rounds for the pulses and messages that arrive one after the other.
unfoldable pub serve : List Received → Option (List Action)
serve [] = some []
serve (e ∷ es) = then_append (handle e) (serve es)

-- The request that the client sends for its argument; `buffer` is what was in `req.string`.
abbrev pub client_request : List ℕ → List ℕ → Request
client_request argument buffer = record {
  msg_type = cksum_msg_type;
  string = strlcpy argument buffer;
}

-- What the client prints of the answer: the checksum, or the status.
pub data Shown : Type 0 where
  checksum : ℤ → Shown
  server_error : (status : ℕ) → Shown

abbrev pub shown : Response → Shown
shown r = if r.status == 0 then checksum r.result else server_error r.status
