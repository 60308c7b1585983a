-- ===== src/MessagePassing/Session/Scripts.antt =====
-- What the client of src/18.lab_message_passing_client.c shows for what is typed.
use qnx_box.Prelude.{
  ◌<◌, ℕ, zero, suc, ◌-◌, ◌≡◌, refl, ap, ◌∙◌, Bool, true, false, ◌||◌, Option, some, List, [], ◌∷◌,
  ◌++◌, map, arith, length, All,
}
use qnx_box.CString.{
  c_string, same_bytes, fgets, after_line, codes, toupper, tolower, c_string-fgets, length-fgets,
  line-append, all-differ,
}
use qnx_box.MessagePassing.{max_string_len, Response}
use qnx_box.MessagePassing.Client.{Action, quit, help, send, unknown, dispatch, client_round}
use qnx_box.MessagePassing.Service.{IsLine, IsServed, case_service}
use qnx_box.MessagePassing.Convert.{IsAscii}
use qnx_box.MessagePassing.Session.{
  Line, attempting, commands, result, unknown_command, Memory, Run, goes_on, react, replied, shown,
  string_after, show, continue_with, client_loop, message_passing_client,
}

-- What is typed in front of `exit`.
pub data Typed : Type 0 where
  upper : List ℕ → Typed
  lower : List ℕ → Typed
  for_help : Typed
  other : List ℕ → Typed

abbrev pub in_front : Typed → List ℕ → List ℕ
in_front (upper s) rest = codes "to_upper\n" ++ s ++ b'\n' ∷ rest
in_front (lower s) rest = codes "to_lower\n" ++ s ++ b'\n' ∷ rest
in_front for_help rest = codes "help\n" ++ rest
in_front (other s) rest = s ++ b'\n' ∷ rest

abbrev pub script_input : List Typed → List ℕ → List ℕ
script_input [] rest = codes "exit\n" ++ rest
script_input (t ∷ ts) rest = in_front t (script_input ts rest)

abbrev pub is_command : List ℕ → Bool
is_command s =
    same_bytes s (codes "exit\n")
    || same_bytes s (codes "help\n")
    || same_bytes s (codes "to_upper\n")
    || same_bytes s (codes "to_lower\n")

-- The lines fit into their arrays and have no NUL, what is to be converted is ASCII, and another command is
-- not one of the four.
abbrev pub IsGood : Typed → Type 0
IsGood (upper s) = IsLine s × IsAscii s
IsGood (lower s) = IsLine s × IsAscii s
IsGood for_help = Unit
IsGood (other s) = IsLine s × (is_command (s ++ b'\n' ∷ []) ≡ false)

abbrev pub line_of : Typed → Line
line_of (upper s) = result (map toupper (s ++ b'\n' ∷ []))
line_of (lower s) = result (map tolower (s ++ b'\n' ∷ []))
line_of for_help = commands
line_of (other s) = unknown_command (s ++ b'\n' ∷ [])

record IsWhole (m : Memory) : Type 0 where
  command : length m.command ≡ max_string_len
  string : length m.string ≡ max_string_len
  response : length m.response.result ≡ max_string_len

string_after-length :
    (a : Action) (input string : List ℕ) → length (string_after a input string) ≡ length string
string_after-length quit input string = refl
string_after-length help input string = refl
string_after-length (send q) input string = length-fgets input string
string_after-length (unknown c) input string = refl

-- A round that shows a line and goes on with the rest.
abbrev Goes : Memory → List ℕ → Line → List ℕ → Type 0
Goes m input l rest =
    (a : Action) × (r : Response) × (client_round m.command m.string input ≡ (a, rest))
    × (react (fgets input m.command) m.response a ≡ some (goes_on l r))
    × (length r.result ≡ max_string_len)

pair : {A B : Type 0} {a a' : A} {b b' : B} → a ≡ a' → b ≡ b' → ◌≡◌ {A = A × B} (a, b) (a', b')
pair e f = rw (e, f) refl

shown_result :
    (r : Response) (s : List ℕ) → r.status ≡ 0 → c_string r.result ≡ s → shown r ≡ result s
shown_result r s ok e = rw (ok, e) refl

served-Goes :
    (m : Memory) (input s rest : List ℕ)
    → IsServed (client_round m.command m.string input) m.response s rest
    → Goes m input (result s) rest
served-Goes m input s rest ((q, r', e, answer, text, ok, len), left) = (
  send q,
  r',
  pair e left,
  ap replied answer ∙ ap (λ l. some (goes_on l r')) (shown_result r' s ok text),
  len,
)

-- The command is read whole.
command_read :
    (m : Memory) (s rest : List ℕ)
    → IsWhole m
    → IsLine s
    → (c_string (fgets (s ++ b'\n' ∷ rest) m.command) ≡ s ++ b'\n' ∷ [])
      × (after_line (max_string_len - 1) (s ++ b'\n' ∷ rest) ≡ rest)
command_read m s rest w (text, one, room) = (
  c_string-fgets s rest m.command text one (omega (arith, w.command)),
  (line-append (max_string_len - 1) s rest one (omega arith)).1,
)

help-IsLine : IsLine (codes "help")
help-IsLine = (all-differ 0 (codes "help") refl, all-differ b'\n' (codes "help") refl, omega arith)

exit-IsLine : IsLine (codes "exit")
exit-IsLine = (all-differ 0 (codes "exit") refl, all-differ b'\n' (codes "exit") refl, omega arith)

help_round :
    (m : Memory) (rest : List ℕ) → IsWhole m → Goes m (codes "help\n" ++ rest) commands rest
unfolding client_round dispatch
help_round m rest w =
    let (read, left) = command_read m (codes "help") rest w help-IsLine in
    (help, m.response, rw read (pair refl left), refl, w.response)

none_of :
    (a b c d : Bool)
    → (a || b || c || d) ≡ false
    → (a ≡ false) × (b ≡ false) × (c ≡ false) × (d ≡ false)
none_of a b c d e = (ground (arith, e), ground (arith, e), ground (arith, e), ground (arith, e))

other_words :
    (s : List ℕ)
    → is_command s ≡ false
    → (same_bytes s (codes "exit\n") ≡ false)
      × (same_bytes s (codes "help\n") ≡ false)
      × (same_bytes s (codes "to_upper\n") ≡ false)
      × (same_bytes s (codes "to_lower\n") ≡ false)
other_words s e = none_of (same_bytes s (codes "exit\n")) _ _ _ e

other_round :
    (m : Memory) (s rest : List ℕ)
    → IsWhole m
    → IsGood (other s)
    → Goes m (s ++ b'\n' ∷ rest) (unknown_command (s ++ b'\n' ∷ [])) rest
unfolding client_round dispatch
other_round m s rest w (l, differs) =
    let (read, left) = command_read m s rest w l in
    let (a, b, c, d) = other_words (s ++ b'\n' ∷ []) differs in
    (
      unknown (fgets (s ++ b'\n' ∷ rest) m.command),
      m.response,
      rw (read, a, b, c, d) (pair refl left),
      ap (λ c. some (goes_on (unknown_command c) m.response)) read,
      w.response,
    )

Typed-Goes :
    (t : Typed) (m : Memory) (rest : List ℕ)
    → IsWhole m
    → IsGood t
    → Goes m (in_front t rest) (line_of t) rest
Typed-Goes (upper s) m rest w (l, ascii) =
    served-Goes m _ _ rest
      (case_service s rest m.command m.string m.response l ascii w.command w.string w.response).0
Typed-Goes (lower s) m rest w (l, ascii) =
    served-Goes m _ _ rest
      (case_service s rest m.command m.string m.response l ascii w.command w.string w.response).1
Typed-Goes for_help m rest w g = help_round m rest w
Typed-Goes (other s) m rest w g = other_round m s rest w g

abbrev next_memory : Memory → List ℕ → Action → Response → Memory
next_memory m input a r = record {
  command = fgets input m.command;
  string = string_after a (after_line (max_string_len - 1) input) m.string;
  response = r;
}

next-IsWhole :
    (m : Memory) (input : List ℕ) (a : Action) (r : Response)
    → IsWhole m
    → length r.result ≡ max_string_len
    → IsWhole (next_memory m input a r)
next-IsWhole m input a r w len = record {
  command = length-fgets input m.command ∙ w.command;
  string = string_after-length a (after_line (max_string_len - 1) input) m.string ∙ w.string;
  response = len;
}

abbrev round_of : ℕ → Memory → List ℕ → Action × List ℕ → Option Run
round_of k m input p =
    continue_with (react (fgets input m.command) m.response p.0) p.1
      (λ r. client_loop k (next_memory m input p.0 r) p.1)

client_loop-Goes :
    (k : ℕ) (m : Memory) (input rest : List ℕ) (l : Line)
    → (g : Goes m input l rest)
    → client_loop (suc k) m input ≡ show l (client_loop k (next_memory m input g.0 g.1) rest)
unfolding client_loop
client_loop-Goes k m input rest l (a, r, e, reacts, len) =
    ap (round_of k m input) e
    ∙ ap (λ x. continue_with x rest (λ r'. client_loop k (next_memory m input a r') rest)) reacts

client_loop-exit :
    (k : ℕ) (m : Memory) (rest : List ℕ)
    → IsWhole m
    → client_loop (suc k) m (codes "exit\n" ++ rest)
      ≡ some (record { lines = []; status = 0; rest = rest })
unfolding client_loop client_round dispatch
client_loop-exit k m rest w =
    let (read, left) = command_read m (codes "exit") rest w exit-IsLine in
    rw read (ap (λ l. some (record { lines = []; status = 0; rest = l })) left)

script_lem :
    (ts : List Typed) (k : ℕ) (m : Memory) (rest : List ℕ)
    → IsWhole m
    → All IsGood ts
    → length ts < k
    → client_loop k m (script_input ts rest)
      ≡ some (record { lines = map line_of ts; status = 0; rest = rest })
script_lem ts zero m rest w g lt = absurd (omega arith)
script_lem [] (suc k) m rest w g lt = client_loop-exit k m rest w
script_lem (t ∷ ts) (suc k) m rest w (g, gs) lt =
    let input = script_input (t ∷ ts) rest in
    let goes = Typed-Goes t m (script_input ts rest) w g in
    client_loop-Goes k m input (script_input ts rest) (line_of t) goes
    ∙ ap (show (line_of t)) (
        script_lem ts k (next_memory m input goes.0 goes.1) rest
          (next-IsWhole m input goes.0 goes.1 w goes.4) gs (omega arith))

-- The client with the server, from its start to its end, where the connection succeeds and so does every
-- MsgReply: for any row of commands with lines without NULs that fit into their arrays of 256 bytes, those to
-- be converted of ASCII characters, and `exit` behind them, whatever is in the arrays before, it shows each
-- line in the case that its command asks for, the help, and a message for what is no command, in the order
-- in which they are typed; then it ends with 0 and leaves the rest unread. One round for each command and
-- one for `exit` are fuel enough.
pub session_shown :
    (atoi : List ℕ → ℕ) (prog program pid chid : List ℕ) (ts : List Typed) (k : ℕ) (m : Memory)
    (rest : List ℕ)
    → length m.command ≡ max_string_len
    → length m.string ≡ max_string_len
    → length m.response.result ≡ max_string_len
    → All IsGood ts
    → length ts < k
    → message_passing_client atoi true k m (prog ∷ program ∷ pid ∷ chid ∷ []) (script_input ts rest)
      ≡ some (record {
        lines = attempting (atoi pid) (atoi chid) ∷ map line_of ts;
        status = 0;
        rest = rest;
      })
unfolding message_passing_client
session_shown atoi prog program pid chid ts k m rest c s r g lt =
    ap (show (attempting (atoi pid) (atoi chid)))
      (script_lem ts k m rest (record { command = c; string = s; response = r }) g lt)
