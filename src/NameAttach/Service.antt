-- ===== src/NameAttach/Service.antt =====
-- The loop of src/21.lab_name_attach_server.c, and the client of src/21.lab_name_attach_client.c.
use qnx_box.Prelude.{
  ℕ, ◌≡◌, refl, ap, ◌∙◌, true, some, List, [], ◌∷◌, ◌++◌, arith, ◌==◌, if◌then◌else◌, length, All,
  sub_ℕ,
}
use qnx_box.CString.{c_string, is_terminated, take, c_string-strlcpy, strlcpy-is_terminated}
use qnx_box.NameAttach.{
  max_string_len, cksum_msg_type, Received, disconnect, cksum_pulse, other_pulse, message, Action,
  detach, reply, answered, handle, serve, client_request,
}
use qnx_box.NameAttach.Checksum.{ascii_sum, negative_sum, calculate_checksum_lem}

-- What the service promises for a pulse or a message.
abbrev pub actions_due : Received → List Action
actions_due (disconnect scoid) = detach scoid ∷ []
actions_due cksum_pulse = []
actions_due other_pulse = []
actions_due (message rcvid q) =
    if q.msg_type == cksum_msg_type
    then reply rcvid (record {
      status = 0;
      result = sub_ℕ (ascii_sum (c_string q.string)) (negative_sum (c_string q.string));
    })
      ∷ []
    else []

abbrev pub all_due : List Received → List Action
all_due [] = []
all_due (e ∷ es) = actions_due e ++ all_due es

abbrev pub IsTerminated : Received → Type 0
IsTerminated (disconnect scoid) = Unit
IsTerminated cksum_pulse = Unit
IsTerminated other_pulse = Unit
IsTerminated (message rcvid q) = is_terminated q.string ≡ true

handle_lem : (e : Received) → IsTerminated e → handle e ≡ some (actions_due e)
unfolding handle
handle_lem (disconnect scoid) t = refl
handle_lem cksum_pulse t = refl
handle_lem other_pulse t = refl
handle_lem (message rcvid q) t =
    ap (λ s. if q.msg_type == cksum_msg_type then answered rcvid s else some [])
      (calculate_checksum_lem q.string t)
    ∙ ground arith

-- Whatever arrives, in whatever order, if the strings of the messages are terminated: each checksum
-- message is answered once, in its turn, with the sum of its characters, each disconnect is
-- answered by a detach, and nothing else is done. In particular no message of another type is
-- ever answered.
pub serve_lem : (es : List Received) → All IsTerminated es → serve es ≡ some (all_due es)
unfolding serve
serve_lem [] t = refl
serve_lem (e ∷ es) (t, ts) = rw (handle_lem e t, serve_lem es ts)

-- The client's request is answered with the checksum of its argument, cut off to 255 characters,
-- whatever was in its buffer.
pub client_served :
    (rcvid : ℕ) (argument buffer : List ℕ)
    → length buffer ≡ max_string_len
    → serve (message rcvid (client_request argument buffer) ∷ [])
      ≡ some (
          reply rcvid (record {
            status = 0;
            result =
                sub_ℕ
                  (ascii_sum (take 255 (c_string argument)))
                  (negative_sum (take 255 (c_string argument)));
          })
          ∷ [])
client_served rcvid argument buffer h =
    serve_lem (message rcvid (client_request argument buffer) ∷ [])
      (strlcpy-is_terminated argument buffer (λ e. omega (arith, h, ap length e)), tt)
    ∙ rw (c_string-strlcpy argument buffer 255 h)
