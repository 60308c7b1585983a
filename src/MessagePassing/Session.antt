-- ===== src/MessagePassing/Session.antt =====
-- The whole client of src/18.lab_message_passing_client.c with the server of
-- src/18.lab_message_passing_server.c: what it shows until the loop is left. MsgSend returns what the server
-- answers; it fails where the server answers with MsgError.
pub mod Scripts
use qnx_box.Prelude.{
  ℕ, zero, suc, ◌-◌, Bool, Option, none, some, List, [], ◌∷◌, ◌==◌, if◌then◌else◌,
}
use qnx_box.CString.{c_string, fgets, after_line}
use qnx_box.MessagePassing.{max_string_len, Response, Answer, reply, enosys, serve}
use qnx_box.MessagePassing.Client.{Action, quit, help, send, unknown, client_round}

pub data Line : Type 0 where
  usage : Line
  attempting : (pid chid : ℕ) → Line
  connect_failed : Line
  commands : Line
  result : (string : List ℕ) → Line
  server_error : (status : ℕ) → Line
  unknown_command : (command : List ℕ) → Line
  send_failed : Line

-- The arrays of the client, and the variable of the server.
pub record Memory : Type 0 where
  pub command : List ℕ
  pub string : List ℕ
  pub response : Response

-- The lines, the status of the exit, and the input that is not read.
pub record Run : Type 0 where
  pub lines : List Line
  pub status : ℕ
  pub rest : List ℕ

abbrev pub shown : Response → Line
shown r = if r.status == 0 then result (c_string r.result) else server_error r.status

-- What follows from a round: the end, with the last line and the status, or the next line and the
-- server's variable.
pub data Reaction : Type 0 where
  ends : List Line → (status : ℕ) → Reaction
  goes_on : Line → Response → Reaction

abbrev pub replied : Option (Answer × Response) → Option Reaction
replied none = none
replied (some (reply res, r)) = some (goes_on (shown res) r)
replied (some (enosys, r)) = some (ends (send_failed ∷ []) 1)

abbrev pub react : List ℕ → Response → Action → Option Reaction
react command r quit = some (ends [] 0)
react command r help = some (goes_on commands r)
react command r (send q) = replied (serve q r)
react command r (unknown c) = some (goes_on (unknown_command (c_string c)) r)

-- `string` is read into for a request only.
abbrev pub string_after : Action → List ℕ → List ℕ → List ℕ
string_after (send q) input string = fgets input string
string_after _ input string = string

abbrev pub show : Line → Option Run → Option Run
show l none = none
show l (some run) = some (record run { lines = l ∷ run.lines })

abbrev pub continue_with : Option Reaction → List ℕ → (Response → Option Run) → Option Run
continue_with none rest loop = none
continue_with (some (ends ls status)) rest loop =
    some (record { lines = ls; status = status; rest = rest })
continue_with (some (goes_on l r)) rest loop = show l (loop r)

-- The loop, on fuel for its rounds; `none` is also an access outside an array.
unfoldable pub client_loop : ℕ → Memory → List ℕ → Option Run
client_loop zero m input = none
client_loop (suc k) m input =
    let command = fgets input m.command in
    let (action, rest) = client_round m.command m.string input in
    continue_with (react command m.response action) rest (λ r.
      client_loop k
        (record {
          command = command;
          string = string_after action (after_line (max_string_len - 1) input) m.string;
          response = r;
        })
        rest)

-- The client from its start. `atoi` is a parameter.
unfoldable pub message_passing_client :
    (atoi : List ℕ → ℕ) → (connect_ok : Bool) → ℕ → Memory → List (List ℕ) → List ℕ → Option Run
message_passing_client atoi connect_ok k m (prog ∷ program ∷ pid ∷ chid ∷ []) input =
    let looped = client_loop k m input in
    show (attempting (atoi pid) (atoi chid)) (
      if connect_ok
      then looped
      else some (record { lines = connect_failed ∷ []; status = 1; rest = input }))
message_passing_client atoi connect_ok k m _ input =
    some (record { lines = usage ∷ []; status = 1; rest = input })
