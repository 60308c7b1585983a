-- ===== src/Calculator/Client.antt =====
-- One round of the loop of src/19.lab_assignment_3_client.c. The input is the list of the bytes to
-- come on stdin.
use qnx_box.Prelude.{ℕ, ◌-◌, ◌≡◌, List, [], ◌∷◌, arith, ◌==◌, if◌then◌else◌, length}
use qnx_box.CString.{codes, c_string, strcmp_eq, fgets, length-fgets, after_line}
use qnx_box.Scan.{scan_pair}
use qnx_box.Calculator.{Request, add_msg_type, sub_msg_type, mult_msg_type, div_msg_type}

-- `operations`
abbrev pub operations : List (List ℕ × ℕ)
operations =
    (codes "add\n", add_msg_type)
    ∷ (codes "sub\n", sub_msg_type)
    ∷ (codes "mult\n", mult_msg_type)
    ∷ (codes "div\n", div_msg_type)
    ∷ []

-- The `for` loop: what becomes of `req.msg_type`.
abbrev pub find_type : List (List ℕ × ℕ) → List ℕ → ℕ → ℕ
find_type [] operation type = type
find_type ((name, number) ∷ rest) operation type =
    find_type rest operation (if strcmp_eq operation name then number else type)

-- The local variables that live across the rounds.
pub record Client : Type 0 where
  pub operation : List ℕ
  pub arguments : List ℕ
  pub req : Request

pub data Action : Type 0 where
  quit : Action
  invalid : Action
  send : Request → Action

abbrev pub read_request : Client → List ℕ → Request
read_request c arguments = record {
  msg_type = c.req.msg_type;
  a = (scan_pair c.req.a c.req.b (c_string arguments)).0;
  b = (scan_pair c.req.a c.req.b (c_string arguments)).1;
}

abbrev pub send_numbers : Client → List ℕ → List ℕ → Action × Client × List ℕ
send_numbers c arguments rest = (
  send (read_request c arguments),
  record c { arguments = arguments; req = read_request c arguments },
  rest,
)

-- The numbers: from the second fgets on, up to MsgSend.
abbrev pub read_numbers : Client → List ℕ → Action × Client × List ℕ
read_numbers c input =
    send_numbers c (fgets input c.arguments) (after_line (length c.arguments - 1) input)

abbrev pub with_type : Client → List ℕ → Action × Client × List ℕ
with_type c input = if c.req.msg_type == 0 then (invalid, c, input) else read_numbers c input

-- The action, with the new state and the rest of the input. MsgSend succeeds: if it fails the client
-- exits.
unfoldable pub client_round : Client → List ℕ → Action × Client × List ℕ
client_round c input =
    let operation = fgets input c.operation in
    let rest = after_line (length c.operation - 1) input in
    if strcmp_eq operation (codes "exit\n")
    then (quit, record c { operation = operation }, rest)
    else with_type
        (record {
          operation = operation;
          arguments = c.arguments;
          req = record { msg_type = find_type operations operation 0; a = c.req.a; b = c.req.b };
        })
        rest

-- What is sent are the numbers of the second line, or those of an earlier round.
pub client_round-sent :
    (c : Client) (input : List ℕ) (q : Request) (c' : Client) (rest : List ℕ)
    → client_round c input ≡ (send q, c', rest)
    → (length c'.arguments ≡ length c.arguments)
      × (q.a ≡ (scan_pair c.req.a c.req.b (c_string c'.arguments)).0)
      × (q.b ≡ (scan_pair c.req.a c.req.b (c_string c'.arguments)).1)
unfolding client_round
client_round-sent c input q c' rest e =
    ground (arith, length-fgets (after_line (length c.operation - 1) input) c.arguments)
