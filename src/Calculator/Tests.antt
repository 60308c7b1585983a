-- ===== src/Calculator/Tests.antt =====
-- The theorems on the calculator of src/19.lab_assignment_3_server.c at concrete inputs. A `double` is
-- here the list of the operations that made it.
use qnx_box.Prelude.{ℕ, ◌≡◌, refl, none, some, List, [], ◌∷◌, ◌++◌, ℤ, pos, negsuc, ◌*ℤ◌}
use qnx_box.CString.{codes, zeros}
use qnx_box.Calculator.{Double, Request, Response, handle}
use qnx_box.Calculator.Client.{Client, send, client_round}
use qnx_box.Calculator.Service.{request_answered, handle-overflow}

abbrev symbolic : Double
symbolic = record { Carrier = List ℤ; of_int = λ z. z ∷ []; divide = λ x y. negsuc 46 ∷ x ++ y }

abbrev product : Request
product = record { msg_type = 3; a = pos 12; b = negsuc 2 }

abbrev fresh : Response (List ℤ)
fresh = record { result = []; status = 7; error = zeros 256 }

abbrev started : Client
started = record {
  operation = zeros 10;
  arguments = zeros 10;
  req = record { msg_type = 0; a = pos 7; b = pos 8 };
}

abbrev typed : List ℕ
typed = codes "mult\n12 -3\nexit\n"

abbrev multiplied : Client
multiplied = record {
  operation = codes "mult\n" ++ zeros 5;
  arguments = codes "12 -3\n" ++ zeros 4;
  req = product;
}

round_sends : client_round started typed ≡ (send product, multiplied, codes "exit\n")
unfolding client_round
round_sends = refl

request_answered_example :
    (product.a ≡ pos 12)
    × (product.b ≡ negsuc 2)
    × (r' : Response (List ℤ)) × (handle symbolic product fresh ≡ some r')
    × (r'.status ≡ 0)
    × (r'.result ≡ negsuc 35 ∷ [])
unfolding ◌*ℤ◌
request_answered_example =
    request_answered symbolic started typed product multiplied (codes "exit\n") (pos 12) (negsuc 2)
      (codes " -3\n") (codes "\n") refl round_sends refl refl refl fresh

abbrev halved : Client
halved = record {
  operation = codes "div\n" ++ zeros 6;
  arguments = codes "12\n" ++ zeros 7;
  req = record { msg_type = 4; a = pos 12; b = pos 8 };
}

round_keeps :
    client_round started (codes "div\n12\n")
    ≡ (send (record { msg_type = 4; a = pos 12; b = pos 8 }), halved, [])
unfolding client_round
round_keeps = refl

-- Numbers that are left over from different lines can overflow.
overflow_undefined :
    handle symbolic (record { msg_type = 3; a = pos 99999999; b = pos 9999999 }) fresh ≡ none
unfolding ◌*ℤ◌
overflow_undefined =
    handle-overflow symbolic (record { msg_type = 3; a = pos 99999999; b = pos 9999999 }) fresh refl
