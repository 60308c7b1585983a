-- ===== src/MessagePassing.antt =====
-- The service that changes the case of strings: src/18.lab_message_passing_server.c,
-- src/18.lab_message_passing_client.c and src/include/18.msg_def.h. Strings are arrays of bytes.
pub mod Client
pub mod Convert
pub mod Service
pub mod Session
mod Tests
use qnx_box.Prelude.{
  ℕ, ◌+◌, suc, Bool, true, false, ◌&&◌, not, Option, none, some, List, [], ◌∷◌, ltb, ◌==◌,
  if◌then◌else◌,
}
use qnx_box.CString.{toupper, tolower}

abbrev pub max_string_len : ℕ
max_string_len = 256

abbrev pub to_upper_msg_type : ℕ
to_upper_msg_type = 1

abbrev pub to_lower_msg_type : ℕ
to_lower_msg_type = 2

-- `ss_request_t`
pub record Request : Type 0 where
  pub msg_type : ℕ
  pub string : List ℕ

-- `ss_response_t`, less the field that is never used
pub record Response : Type 0 where
  pub result : List ℕ
  pub status : ℕ

abbrev pub put_first : ℕ → Option (List ℕ) → Option (List ℕ)
put_first c none = none
put_first c (some dest) = some (c ∷ dest)

-- The loop of both functions, from index `i` on, and the NUL that is written behind it: what the
-- rest of `dest` becomes. A read or a write behind the end of an array is `none`, and so is a call of
-- toupper or tolower with a char that is negative, which is not defined.
unfoldable pub convert : (ℕ → ℕ) → ℕ → List ℕ → List ℕ → Option (List ℕ)
convert f i dest [] = none
convert f i [] (c ∷ src) = none
convert f i (d ∷ dest) (c ∷ src) =
    if not (c == 0) && ltb i max_string_len
    then (if ltb c 128 then put_first (f c) (convert f (i + 1) dest src) else none)
    else some (0 ∷ dest)

unfoldable pub string_to_upper : List ℕ → List ℕ → Option (List ℕ)
string_to_upper dest src = convert toupper 0 dest src

unfoldable pub string_to_lower : List ℕ → List ℕ → Option (List ℕ)
string_to_lower dest src = convert tolower 0 dest src

-- What the server sends back: MsgReply, or MsgError with ENOSYS.
pub data Answer : Type 0 where
  reply : Response → Answer
  enosys : Answer

-- The answer, and the local variable `response` after it.
abbrev pub answered : Response → Option (List ℕ) → Option (Answer × Response)
answered r none = none
answered r (some s) =
    some (reply (record r { result = s; status = 0 }), record r { result = s; status = 0 })

-- One round of the server's loop with the received request, as long as MsgReply succeeds: if it
-- fails the server exits. `none` is an access outside an array.
unfoldable pub serve : Request → Response → Option (Answer × Response)
serve q r =
    if q.msg_type == to_upper_msg_type
    then answered r (string_to_upper r.result q.string)
    else if q.msg_type == to_lower_msg_type
    then answered r (string_to_lower r.result q.string)
    else some (enosys, r)
