-- ===== src/MessagePassing/Tests.antt =====
-- The theorems on the service of src/18.lab_message_passing_server.c at concrete inputs.
use qnx_box.Prelude.{ℕ, ◌≡◌, refl, some, List, ◌∷◌, map, arith}
use qnx_box.CString.{IsText, codes, zeros, all-differ, toupper, tolower}
use qnx_box.MessagePassing.{Response, enosys, serve}
use qnx_box.MessagePassing.Service.{IsLine}
use qnx_box.MessagePassing.Convert.{IsAscii}
use qnx_box.MessagePassing.Session.{
  Memory, attempting, result, unknown_command, commands, message_passing_client,
}
use qnx_box.MessagePassing.Session.Scripts.{
  Typed, upper, lower, for_help, other, script_input, session_shown,
}
use qnx_box.Prelude.{true, []}

abbrev buffer : List ℕ
buffer = zeros 256

abbrev full : List ℕ
full = map (λ c. b'a') buffer

abbrev fresh : Response
fresh = record { result = full; status = 7 }

greeting-IsText : IsText (codes "Hi!")
greeting-IsText = all-differ 0 (codes "Hi!") refl

greeting-IsLine : IsLine (codes "Hi!")
greeting-IsLine = (greeting-IsText, all-differ b'\n' (codes "Hi!") refl, omega arith)

greeting-IsAscii : IsAscii (codes "Hi!")
greeting-IsAscii = ground arith

abbrev memory : Memory
memory = record { command = full; string = buffer; response = fresh }

abbrev script : List Typed
script = upper (codes "Hi!") ∷ other (codes "hello") ∷ for_help ∷ lower (codes "Hi!") ∷ []

hello-IsLine : IsLine (codes "hello")
hello-IsLine =
    (all-differ 0 (codes "hello") refl, all-differ b'\n' (codes "hello") refl, omega arith)

session_shown_example :
    message_passing_client
      (λ s. 7)
      true
      5
      memory
      ([] ∷ [] ∷ codes "7" ∷ codes "7" ∷ [])
      (script_input script (codes "left"))
    ≡ some (record {
      lines =
          attempting 7 7
          ∷ result (codes "HI!\n")
          ∷ unknown_command (codes "hello\n")
          ∷ commands
          ∷ result (codes "hi!\n")
          ∷ [];
      status = 0;
      rest = codes "left";
    })
unfolding toupper tolower
session_shown_example =
    session_shown (λ s. 7) [] [] (codes "7") (codes "7") script 5 memory (codes "left") refl refl
      refl
      (
        (greeting-IsLine, greeting-IsAscii),
        ((hello-IsLine, refl), (tt, ((greeting-IsLine, greeting-IsAscii), tt))),
      )
      (omega arith)

serve_unknown : serve (record { msg_type = 3; string = full }) fresh ≡ some (enosys, fresh)
unfolding serve
serve_unknown = refl
