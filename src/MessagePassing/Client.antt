-- ===== src/MessagePassing/Client.antt =====
-- One round of the loop of src/18.lab_message_passing_client.c. The arrays `command` and `string`
-- are not initialised; the input is the list of the bytes to come on stdin.
use qnx_box.Prelude.{ℕ, ◌-◌, Bool, List, if◌then◌else◌}
use qnx_box.CString.{codes, strcmp_eq, fgets, after_line, strncpy}
use qnx_box.MessagePassing.{max_string_len, to_upper_msg_type, to_lower_msg_type, Request}

pub data Action : Type 0 where
  quit : Action
  help : Action
  send : Request → Action
  unknown : List ℕ → Action

-- strncmp(command, word, MAX_STRING_LEN) == 0, for a word shorter than that
abbrev pub is_word : List ℕ → List ℕ → Bool
is_word command word = strcmp_eq command word

-- The branches `to_upper` and `to_lower` up to MsgSend.
abbrev pub send_string : ℕ → List ℕ → List ℕ → Action × List ℕ
send_string type string input = (
  send (record { msg_type = type; string = strncpy max_string_len (fgets input string) }),
  after_line (max_string_len - 1) input,
)

-- What is done for the command in the array, with the rest of the input.
unfoldable pub dispatch : List ℕ → List ℕ → List ℕ → Action × List ℕ
dispatch command string input =
    if is_word command (codes "exit\n")
    then (quit, input)
    else if is_word command (codes "help\n")
    then (help, input)
    else if is_word command (codes "to_upper\n")
    then send_string to_upper_msg_type string input
    else if is_word command (codes "to_lower\n")
    then send_string to_lower_msg_type string input
    else (unknown command, input)

unfoldable pub client_round : List ℕ → List ℕ → List ℕ → Action × List ℕ
unfolding dispatch
client_round command string input =
    dispatch (fgets input command) string (after_line (max_string_len - 1) input)
