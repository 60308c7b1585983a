-- ===== src/Calculator.antt =====
-- The calculator of src/19.lab_assignment_3_server.c, src/19.lab_assignment_3_client.c and
-- src/include/19.msg_def.h. The type `double` with its division and the conversion from int are
-- parameters: the record `Double`. An int is an integer; arithmetic that leaves the range of a 32-bit
-- int has no defined result in C, and is `none`.
pub mod Client
pub mod Service
mod Tests
use qnx_box.Prelude.{
  ℕ, ◌+◌, ◌^◌, Bool, Option, none, some, List, [], ◌∷◌, ◌++◌, ltb, ◌==◌, if◌then◌else◌, ℤ, pos,
  negsuc, ◌+ℤ◌, ◌-ℤ◌, ◌*ℤ◌,
}
use qnx_box.CString.{codes, overwrite}

pub record Double : Type 1 where
  pub Carrier : Type 0
  pub of_int : ℤ → Carrier
  pub divide : Carrier → Carrier → Carrier

abbrev pub add_msg_type : ℕ
add_msg_type = 1

abbrev pub sub_msg_type : ℕ
sub_msg_type = 2

abbrev pub mult_msg_type : ℕ
mult_msg_type = 3

abbrev pub div_msg_type : ℕ
div_msg_type = 4

-- `ms_request_t`
pub record Request : Type 0 where
  pub msg_type : ℕ
  pub a : ℤ
  pub b : ℤ

-- `ms_response_t`, less the field that is never used
pub record Response (D : Type 0) : Type 0 where
  pub result : D
  pub status : ℕ
  pub error : List ℕ

-- The values of an int.
abbrev pub fits : ℤ → Bool
fits (pos n) = ltb n (2 ^ 31)
fits (negsuc n) = ltb n (2 ^ 31)

abbrev pub is_zero : ℤ → Bool
is_zero (pos n) = n == 0
is_zero (negsuc n) = Bool.false

abbrev pub strcpy : List ℕ → List ℕ → List ℕ
strcpy dest text = overwrite (text ++ 0 ∷ []) dest

module _ (d : Double) where
  -- `res.result = ` the value of an int expression
  abbrev pub int_result : Response d.Carrier → ℤ → Option (Response d.Carrier)
  int_result r z = if fits z then some (record r { result = d.of_int z; status = 0 }) else none

  -- One round of the server's loop: what MsgReply sends. It sends back all of `res`, which lives
  -- across the rounds.
  unfoldable pub handle : Request → Response d.Carrier → Option (Response d.Carrier)
  handle q r =
      if q.msg_type == add_msg_type
      then int_result r (q.a +ℤ q.b)
      else if q.msg_type == sub_msg_type
      then int_result r (q.a -ℤ q.b)
      else if q.msg_type == mult_msg_type
      then int_result r (q.a *ℤ q.b)
      else if q.msg_type == div_msg_type
      then (if is_zero q.b
          then some (record r { status = 2; error = strcpy r.error (codes "Division by 0") })
          else some (record r { result = d.divide (d.of_int q.a) (d.of_int q.b); status = 0 }))
      else some (record r { status = 1; error = strcpy r.error (codes "Unknown operation") })
