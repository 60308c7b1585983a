-- ===== src/Calculator/Service.antt =====
-- The server of src/19.lab_assignment_3_server.c on the requests that the client of
-- src/19.lab_assignment_3_client.c makes.
use qnx_box.Prelude.{
  ℕ, ◌+◌, ◌*◌, ◌^◌, ◌≤◌, ◌<◌, ◌≡◌, ap, ◌∙◌, true, false, ◌&&◌, not, none, some, List, arith, leb,
  ◌==◌, if◌then◌else◌, length, ℤ, pos, negsuc, ◌+ℤ◌, ◌-ℤ◌, ◌*ℤ◌, sub_ℕ, pos_part, neg_part,
  Option-cases, inl, inr,
}
use qnx_box.CString.{c_string, is_terminated, length-c_string}
use qnx_box.Scan.{scan_int, magnitude, pair_bound, scan_pair-both, scan_pair-one}
use qnx_box.Calculator.{
  Double, Request, Response, fits, is_zero, handle, add_msg_type, sub_msg_type, mult_msg_type,
  div_msg_type,
}
use qnx_box.Calculator.Client.{Client, send, client_round, client_round-sent}

-- The result of an operation on integers, if it is one.
abbrev pub exact : ℕ → ℤ → ℤ → ℤ
exact type a b =
    if type == add_msg_type
    then a +ℤ b
    else if type == sub_msg_type
    then a -ℤ b
    else if type == mult_msg_type
    then a *ℤ b
    else pos 0

magnitude-fits : (z : ℤ) → magnitude z < 2 ^ 31 → fits z ≡ true
magnitude-fits (pos n) h = ground arith
magnitude-fits (negsuc n) h = ground arith

magnitude-sub_ℕ : (m n : ℕ) → magnitude (sub_ℕ m n) ≤ m + n
magnitude-sub_ℕ m n = ground arith

magnitude-+ℤ : (a b : ℤ) → magnitude (a +ℤ b) ≤ magnitude a + magnitude b
unfolding ◌+ℤ◌
magnitude-+ℤ a b =
    omega (arith, magnitude-sub_ℕ (pos_part a + pos_part b) (neg_part a + neg_part b))

magnitude--ℤ : (a b : ℤ) → magnitude (a -ℤ b) ≤ magnitude a + magnitude b
unfolding ◌-ℤ◌
magnitude--ℤ a b =
    omega (arith, magnitude-sub_ℕ (pos_part a + neg_part b) (neg_part a + pos_part b))

magnitude-*ℤ : (a b : ℤ) → magnitude (a *ℤ b) ≤ magnitude a * magnitude b
unfolding ◌*ℤ◌
magnitude-*ℤ a b = omega (
  arith,
  magnitude-sub_ℕ (pos_part a * pos_part b + neg_part a * neg_part b)
      (pos_part a * neg_part b + neg_part a * pos_part b),
)

product_room : (x y : ℕ) → (x + 1) * (y + 1) ≤ 10 ^ 9 → (x + y < 2 ^ 31) × (x * y < 2 ^ 31)
product_room x y h = (omega arith, omega arith)

exact-fits :
    (type : ℕ) (a b : ℤ)
    → (magnitude a + 1) * (magnitude b + 1) ≤ 10 ^ 9
    → fits (exact type a b) ≡ true
exact-fits type a b h =
    let room = product_room (magnitude a) (magnitude b) h in
    ground (
      arith,
      magnitude-fits (a +ℤ b) (omega (arith, room.0, magnitude-+ℤ a b)),
      magnitude-fits (a -ℤ b) (omega (arith, room.0, magnitude--ℤ a b)),
      magnitude-fits (a *ℤ b) (omega (arith, room.1, magnitude-*ℤ a b)),
    )

-- Whatever is typed: where the client sends a request and both numbers stand in the line that it
-- read, a string in its array of 10 bytes, the server's int arithmetic on them does not overflow.
pub requests_fit :
    (c : Client) (input : List ℕ) (q : Request) (c' : Client) (rest : List ℕ) (a b : ℤ)
    (u v : List ℕ)
    → length c.arguments ≡ 10
    → client_round c input ≡ (send q, c', rest)
    → is_terminated c'.arguments ≡ true
    → scan_int (c_string c'.arguments) ≡ some (a, u)
    → scan_int u ≡ some (b, v)
    → (q.a ≡ a) × (q.b ≡ b) × (fits (exact q.msg_type q.a q.b) ≡ true)
requests_fit c input q c' rest a b u v h e t ea eb =
    let (l, pa, pb) = client_round-sent c input q c' rest e in
    let both = scan_pair-both c.req.a c.req.b (c_string c'.arguments) u v a b ea eb in
    let qa = pa ∙ ap (λ p. p.0) both in
    let qb = pb ∙ ap (λ p. p.1) both in
    let bound =
      pair_bound (c_string c'.arguments) u v a b
        (omega (arith, l, h, length-c_string c'.arguments t)) ea eb in
    (qa, qb, rw (qa, qb, exact-fits q.msg_type a b bound))

-- What the server's `status` says.
abbrev pub status_due : Request → ℕ
status_due q =
    if leb add_msg_type q.msg_type && leb q.msg_type mult_msg_type
    then 0
    else if not (q.msg_type == div_msg_type)
    then 1
    else if is_zero q.b
    then 2
    else 0

module _ (d : Double) where
  -- The quotient for a division, and otherwise the integer as a double.
  abbrev pub result_due : Request → d.Carrier
  result_due q =
      if q.msg_type == div_msg_type
      then d.divide (d.of_int q.a) (d.of_int q.b)
      else d.of_int (exact q.msg_type q.a q.b)

  -- Where the int arithmetic does not overflow the server answers: with status 0 and the result for
  -- a known operation, with 2 for a division by zero, and with 1 for an unknown operation; the last
  -- two leave the result of an earlier round in the answer.
  pub handle_lem :
      (q : Request) (r : Response d.Carrier)
      → fits (exact q.msg_type q.a q.b) ≡ true
      → (r' : Response d.Carrier) × (handle d q r ≡ some r')
        × (r'.status ≡ status_due q)
        × (r'.result ≡ (if status_due q == 0 then result_due q else r.result))
  unfolding handle
  handle_lem q r h = elim (Option-cases (handle d q r)) [
    | inl e ↦ absurd (ground arith)
    | inr (r', e) ↦ (r', e, ground arith, ground arith)
  ]

  -- Whatever is typed: where the client sends a request and both numbers stand in the line that it read,
  -- a string in its array of 10 bytes, the request carries them, and the server's int arithmetic on it
  -- does not overflow: it answers with status 0 and the sum, the difference, the product or the quotient
  -- of the two numbers, with 2 for a division by zero and with 1 for an unknown operation; the last two
  -- leave the result of an earlier round in the answer.
  pub request_answered :
      (c : Client) (input : List ℕ) (q : Request) (c' : Client) (rest : List ℕ) (a b : ℤ)
      (u v : List ℕ)
      → length c.arguments ≡ 10
      → client_round c input ≡ (send q, c', rest)
      → is_terminated c'.arguments ≡ true
      → scan_int (c_string c'.arguments) ≡ some (a, u)
      → scan_int u ≡ some (b, v)
      → (r : Response d.Carrier)
      → (q.a ≡ a)
        × (q.b ≡ b)
        × (r' : Response d.Carrier) × (handle d q r ≡ some r')
        × (r'.status ≡ status_due q)
        × (r'.result ≡ (if status_due q == 0 then result_due q else r.result))
  request_answered c input q c' rest a b u v h e t ea eb r =
      let (qa, qb, room) = requests_fit c input q c' rest a b u v h e t ea eb in
      let (r', done, status, result) = handle_lem q r room in (qa, qb, r', done, status, result)

  -- The other way round: where it overflows, nothing is known of the answer.
  pub handle-overflow :
      (q : Request) (r : Response d.Carrier)
      → fits (exact q.msg_type q.a q.b) ≡ false
      → handle d q r ≡ none
  unfolding handle
  handle-overflow q r h = ground arith

-- Where only the first number stands in the line, the client sends the second number of its last
-- request again, or, before the first, whatever was in memory.
pub stale_operand :
    (c : Client) (input : List ℕ) (q : Request) (c' : Client) (rest : List ℕ) (a : ℤ) (u : List ℕ)
    → client_round c input ≡ (send q, c', rest)
    → scan_int (c_string c'.arguments) ≡ some (a, u)
    → scan_int u ≡ none
    → (q.a ≡ a) × (q.b ≡ c.req.b)
stale_operand c input q c' rest a u e ea eb =
    let (l, pa, pb) = client_round-sent c input q c' rest e in
    let one = scan_pair-one c.req.a c.req.b (c_string c'.arguments) u a ea eb in
    (pa ∙ ap (λ p. p.0) one, pb ∙ ap (λ p. p.1) one)
