-- ===== src/NameAttach/Tests.antt =====
-- The theorems on the checksum service of src/21.lab_name_attach_server.c at concrete inputs.
use qnx_box.Prelude.{ℕ, ◌≡◌, refl, some, List, [], ◌∷◌, pos}
use qnx_box.NameAttach.{
  Received, disconnect, cksum_pulse, message, detach, reply, serve, shown, checksum,
}
use qnx_box.NameAttach.Service.{serve_lem}
use qnx_box.CString.{codes, zeros}
use qnx_box.NameAttach.{handle, calculate_checksum, add_chars, Action, client_request}
use qnx_box.NameAttach.Client.{
  Client, Outcomes, client, name_attach_client, sending, result, answer_to, checksum_shown,
  IsAnswered, up_to_message, from_message,
}
use qnx_box.Prelude.{Option, none, true, ap, sym, ◌∙◌, ◌++◌, ◌+ℤ◌}

-- 'A', a byte that is -1 as a char, and a NUL
abbrev text : List ℕ
text = 65 ∷ 255 ∷ 0 ∷ 7 ∷ []

abbrev arrivals : List Received
arrivals =
    cksum_pulse
    ∷ message 5 (record { msg_type = 9; string = text })
    ∷ message 6 (record { msg_type = 1; string = text })
    ∷ disconnect 2
    ∷ []

serve_lem_example :
    serve arrivals ≡ some (reply 6 (record { status = 0; result = pos 64 }) ∷ detach 2 ∷ [])
serve_lem_example = serve_lem arrivals (tt, (refl, (refl, (tt, tt))))

shows_checksum : shown (record { status = 0; result = pos 131 }) ≡ checksum (pos 131)
shows_checksum = refl

abbrev all_well : Outcomes
all_well = record {
  name_open_ok = true;
  pulse_ok = true;
  answer = some (record { status = 0; result = pos 131 });
}

-- Somebody else's messages, the first one with the number that the client gets later.
abbrev earlier_others : List Received
earlier_others = message 5 (record { msg_type = 1; string = text }) ∷ []

abbrev others : List Received
others = message 6 (record { msg_type = 1; string = text }) ∷ []

abbrev session : Client
session = client 5 [] [] (codes "AB") (zeros 256) all_well earlier_others [] others refl

abbrev done : Option (List Action) → List Action
done none = []
done (some acts) = acts

abbrev behind : List Action → List Action
behind [] = []
behind (act ∷ acts) = acts

session-IsAnswered :
    IsAnswered 5 all_well.answer
      (up_to_message earlier_others [] session.sent)
      (from_message others session.sent)
unfolding serve name_attach_client handle calculate_checksum add_chars ◌+ℤ◌
session-IsAnswered earlier later e f =
    ap (λ x. answer_to 5 (behind (done x))) f
    ∙ ap (λ x. answer_to 5 (behind (x ++ later))) (sym (ap done e))

checksum_shown_example :
    (session.lines
      ≡ sending (client_request (codes "AB") (zeros 256)).string
        ∷ result (client_request (codes "AB") (zeros 256)).string (checksum (pos 131))
        ∷ [])
    × (session.status ≡ 0)
checksum_shown_example =
    checksum_shown 5 [] [] (codes "AB") (zeros 256) all_well earlier_others [] others refl
      (refl, tt) tt (refl, tt) refl refl session-IsAnswered
