-- ===== src/NameAttach/Client.antt =====
-- The client of src/21.lab_name_attach_client.c, with the server of src/21.lab_name_attach_server.c. What
-- the calls return is the input.
use mathlib.Core.Path.{subst}
use mathlib.Core.List.{append_assoc}
use qnx_box.Prelude.{
  sym, ℕ, ◌≡◌, refl, ap, ◌∙◌, Bool, true, Option, none, some, List, [], ◌∷◌, ◌++◌, ◌==◌,
  if◌then◌else◌, ℤ, arith, length, All, sub_ℕ, if-true, eq→==,
}
use qnx_box.CString.{c_string, take, c_string-strlcpy, strlcpy-is_terminated}
use qnx_box.NameAttach.{
  max_string_len, Response, Received, cksum_pulse, message, Action, detach, reply, serve,
  client_request, Shown, shown, checksum,
}
use qnx_box.NameAttach.Checksum.{ascii_sum, negative_sum}
use qnx_box.NameAttach.Service.{actions_due, IsTerminated, all_due, serve_lem}

pub data Line : Type 0 where
  usage : Line
  name_open_failed : Line
  pulse_failed : Line
  sending : (string : List ℕ) → Line
  send_failed : Line
  result : (string : List ℕ) → Shown → Line

-- What MsgSend returns: -1, or the answer.
pub record Outcomes : Type 0 where
  pub name_open_ok : Bool
  pub pulse_ok : Bool
  pub answer : Option Response

-- What it prints, what it sends after the pulse, and the status of its exit.
pub record Client : Type 0 where
  pub lines : List Line
  pub sent : List Received
  pub status : ℕ

abbrev pub failing : Line → Client
failing l = record { lines = l ∷ []; sent = []; status = 1 }

abbrev pub after_send : List ℕ → Option Response → Client
after_send string none = failing send_failed
after_send string (some res) = record {
  lines = result string (shown res) ∷ [];
  sent = [];
  status = 0;
}

-- `rcvid` is the number that the server gets for the message, and `buffer` what `req.string` holds before.
unfoldable pub name_attach_client : (rcvid : ℕ) → List ℕ → Outcomes → List (List ℕ) → Client
name_attach_client rcvid buffer o (prog ∷ program ∷ argument ∷ []) =
    let q = client_request argument buffer in
    let last = after_send q.string o.answer in
    if o.name_open_ok
    then if o.pulse_ok
      then record {
        lines = sending q.string ∷ last.lines;
        sent = cksum_pulse ∷ message rcvid q ∷ [];
        status = last.status;
      }
      else failing pulse_failed
    else failing name_open_failed
name_attach_client rcvid buffer o _ = failing usage

-- The answer that the server gives to a message, if any.
abbrev pub answer_to : ℕ → List Action → Option Response
answer_to rcvid [] = none
answer_to rcvid (reply r res ∷ acts) = if r == rcvid then some res else answer_to rcvid acts
answer_to rcvid (detach scoid ∷ acts) = answer_to rcvid acts

-- What a sent string amounts to.
abbrev pub sum_of : List ℕ → ℤ
sum_of s = sub_ℕ (ascii_sum s) (negative_sum s)

-- What arrives up to the client's message, and from it on, where other pulses and messages arrive
-- before its first one, between its two, and behind.
abbrev pub up_to_message : List Received → List Received → List Received → List Received
up_to_message before between [] = before ++ between
up_to_message before between (pulse ∷ _) = before ++ pulse ∷ between

abbrev pub from_message : List Received → List Received → List Received
from_message after (pulse ∷ request ∷ _) = request ∷ after
from_message after _ = after

-- MsgSend returns the server's first answer to `rcvid` behind what it did before it had the message.
abbrev pub IsAnswered : ℕ → Option Response → (earlier_ones later_ones : List Received) → Type 0
IsAnswered rcvid answer earlier_ones later_ones =
    (earlier later : List Action)
    → serve earlier_ones ≡ some earlier
    → serve (earlier_ones ++ later_ones) ≡ some (earlier ++ later)
    → answer ≡ answer_to rcvid later

All-++ :
    (xs ys : List Received)
    → All IsTerminated xs
    → All IsTerminated ys
    → All IsTerminated (xs ++ ys)
All-++ [] ys t u = u
All-++ (x ∷ xs) ys (t, ts) u = (t, All-++ xs ys ts u)

all_due-++ : (xs ys : List Received) → all_due (xs ++ ys) ≡ all_due xs ++ all_due ys
all_due-++ [] ys = refl
all_due-++ (x ∷ xs) ys =
    ap (λ l. actions_due x ++ l) (all_due-++ xs ys)
    ∙ sym (append_assoc (actions_due x) (all_due xs) (all_due ys))

answer_due :
    (rcvid : ℕ) (answer : Option Response) (xs ys : List Received)
    → All IsTerminated xs
    → All IsTerminated ys
    → IsAnswered rcvid answer xs ys
    → answer ≡ answer_to rcvid (all_due ys)
answer_due rcvid answer xs ys t u answered =
    answered (all_due xs) (all_due ys) (serve_lem xs t)
      (serve_lem (xs ++ ys) (All-++ xs ys t u) ∙ ap some (all_due-++ xs ys))

module _ (rcvid : ℕ) (prog program argument buffer : List ℕ) (o : Outcomes)
    (before between after : List Received) (room : length buffer ≡ max_string_len) where
  abbrev pub client : Client
  client = name_attach_client rcvid buffer o (prog ∷ program ∷ argument ∷ [])

  abbrev request : Received
  request = message rcvid (client_request argument buffer)

  request-IsTerminated : IsTerminated request
  request-IsTerminated =
      strlcpy-is_terminated argument buffer (λ e. omega (arith, room, ap length e))

  request_due :
      all_due (request ∷ after)
      ≡ reply rcvid (record { status = 0; result = sum_of (take 255 (c_string argument)) })
        ∷ all_due after
  request_due = rw (c_string-strlcpy argument buffer 255 room) refl

  answer_sent :
      All IsTerminated before
      → All IsTerminated between
      → All IsTerminated after
      → o.name_open_ok ≡ true
      → o.pulse_ok ≡ true
      → IsAnswered rcvid o.answer
          (up_to_message before between client.sent)
          (from_message after client.sent)
      → o.answer ≡ some (record { status = 0; result = sum_of (take 255 (c_string argument)) })
  unfolding name_attach_client
  answer_sent b t a n p answered =
      let sent : client.sent ≡ cksum_pulse ∷ request ∷ [] = rw (n, p) refl in
      let there =
        subst
          (λ l. IsAnswered rcvid o.answer (up_to_message before between l) (from_message after l))
          sent answered in
      answer_due rcvid o.answer (before ++ cksum_pulse ∷ between) (request ∷ after)
        (All-++ before (cksum_pulse ∷ between) b (tt, t)) (request-IsTerminated, a) there
      ∙ ap (answer_to rcvid) request_due
      ∙ if-true _ _ (eq→== rcvid rcvid refl)

  -- The client with the server, whatever other pulses and messages arrive before its pulse, between its
  -- pulse and its message, and behind: where the strings of the other messages are terminated, the
  -- client's connection and pulse succeed, and MsgSend returns the server's first answer to it behind what
  -- the server did before it had the message, the client prints the string that it sends and then the
  -- checksum of its argument, of which 255 characters are kept at most, and ends with 0.
  pub checksum_shown :
      All IsTerminated before
      → All IsTerminated between
      → All IsTerminated after
      → o.name_open_ok ≡ true
      → o.pulse_ok ≡ true
      → IsAnswered rcvid o.answer
          (up_to_message before between client.sent)
          (from_message after client.sent)
      → (client.lines
          ≡ sending (client_request argument buffer).string
            ∷ result
                (client_request argument buffer).string
                (checksum (sum_of (take 255 (c_string argument))))
            ∷ [])
        × (client.status ≡ 0)
  unfolding name_attach_client
  checksum_shown b t a n p answered =
      let e = answer_sent b t a n p answered in (rw (n, p, e) refl, rw (n, p, e) refl)
