-- ===== src/MessagePassing/Service.antt =====
-- The client and the server of src/18.lab_message_passing_client.c and
-- src/18.lab_message_passing_server.c together.
use qnx_box.Prelude.{
  ℕ, suc, ◌-◌, ◌≤◌, ◌<◌, ◌≡◌, refl, ◌≢◌, ◌∙◌, ap, some, List, [], ◌∷◌, ◌++◌, map, arith, length,
  length-append, All, All-append,
}
use qnx_box.CString.{
  IsText, c_string, zeros, fgets, after_line, strncpy, codes, toupper, tolower, c_string-fgets,
  c_string-overwrite, strncpy-c_string, line-append, IsText-map, length-map, all-differ,
  toupper-ne-zero, tolower-ne-zero, length-overwrite,
}
use qnx_box.MessagePassing.{
  max_string_len, to_upper_msg_type, to_lower_msg_type, Request, Response, reply, answered, serve,
  string_to_upper, string_to_lower,
}
use qnx_box.MessagePassing.Convert.{IsAscii, string_to_case}
use qnx_box.MessagePassing.Client.{Action, send, send_string, dispatch, client_round}

-- A line of the input that an array of 256 bytes takes whole.
abbrev pub IsLine : List ℕ → Type 0
IsLine s = IsText s × All (λ c. c ≢ b'\n') s × (suc (suc (length s)) ≤ max_string_len)

dispatch_upper :
    (command string input : List ℕ)
    → c_string command ≡ codes "to_upper\n"
    → dispatch command string input ≡ send_string to_upper_msg_type string input
unfolding dispatch
dispatch_upper command string input e = rw e

dispatch_lower :
    (command string input : List ℕ)
    → c_string command ≡ codes "to_lower\n"
    → dispatch command string input ≡ send_string to_lower_msg_type string input
unfolding dispatch
dispatch_lower command string input e = rw e

IsLine-IsText : (s : List ℕ) → IsLine s → IsText (s ++ b'\n' ∷ [])
IsLine-IsText s (t, h, room) =
    All-append (λ c. c ≢ 0) s (b'\n' ∷ []) t ((λ e. absurd (omega arith)), tt)

IsAscii-line : (s : List ℕ) → IsAscii s → IsAscii (s ++ b'\n' ∷ [])
IsAscii-line s a = All-append (λ c. c < 128) s (b'\n' ∷ []) a (omega arith, tt)

IsLine-length : (s : List ℕ) → IsLine s → length (s ++ b'\n' ∷ []) < max_string_len
IsLine-length s (t, h, room) = omega (arith, length-append s (b'\n' ∷ []))

-- The string of a request holds the line typed, and NULs.
request_string :
    (s rest string : List ℕ)
    → IsLine s
    → length string ≡ max_string_len
    → (m : ℕ) × (strncpy max_string_len (fgets (s ++ b'\n' ∷ rest) string)
        ≡ (s ++ b'\n' ∷ []) ++ 0 ∷ zeros m)
request_string s rest string l hs =
    let read = c_string-fgets s rest string l.0 l.1 (omega (arith, l.2, hs)) in
    let (m, e) =
      strncpy-c_string max_string_len (fgets (s ++ b'\n' ∷ rest) string)
        (omega (arith, ap length read, IsLine-length s l)) in
    (m, e ∙ ap (λ t. t ++ 0 ∷ zeros m) read)

-- The server's answer to a request whose string is the text `t`.
upper_reply :
    (src t : List ℕ) (m : ℕ) (r : Response)
    → src ≡ t ++ 0 ∷ zeros m
    → IsText t
    → IsAscii t
    → length t < max_string_len
    → length r.result ≡ max_string_len
    → (r' : Response) × (serve (record { msg_type = to_upper_msg_type; string = src }) r
        ≡ some (reply r', r'))
      × (c_string r'.result ≡ map toupper t)
      × (r'.status ≡ 0)
      × (length r'.result ≡ max_string_len)
unfolding serve
upper_reply src t m r e text ascii short hr =
    let converted = (string_to_case r.result t (zeros m) text ascii short (omega arith)).0 in
    (
      _,
      ap (answered r) (ap (string_to_upper r.result) e ∙ converted),
      c_string-overwrite (map toupper t) r.result (IsText-map toupper t toupper-ne-zero text)
          (omega (arith, length-map toupper t)),
      refl,
      length-overwrite (map toupper t ++ 0 ∷ []) r.result ∙ hr,
    )

-- The server's answer to a request whose string is the text `t`.
lower_reply :
    (src t : List ℕ) (m : ℕ) (r : Response)
    → src ≡ t ++ 0 ∷ zeros m
    → IsText t
    → IsAscii t
    → length t < max_string_len
    → length r.result ≡ max_string_len
    → (r' : Response) × (serve (record { msg_type = to_lower_msg_type; string = src }) r
        ≡ some (reply r', r'))
      × (c_string r'.result ≡ map tolower t)
      × (r'.status ≡ 0)
      × (length r'.result ≡ max_string_len)
unfolding serve
lower_reply src t m r e text ascii short hr =
    let converted = (string_to_case r.result t (zeros m) text ascii short (omega arith)).1 in
    (
      _,
      ap (answered r) (ap (string_to_lower r.result) e ∙ converted),
      c_string-overwrite (map tolower t) r.result (IsText-map tolower t tolower-ne-zero text)
          (omega (arith, length-map tolower t)),
      refl,
      length-overwrite (map tolower t ++ 0 ∷ []) r.result ∙ hr,
    )

after_text :
    (s rest : List ℕ) → IsLine s → after_line (max_string_len - 1) (s ++ b'\n' ∷ rest) ≡ rest
after_text s rest (t, h, room) = (line-append (max_string_len - 1) s rest h (omega arith)).1

upper_round :
    (s rest command string : List ℕ)
    → length command ≡ max_string_len
    → client_round command string (codes "to_upper\n" ++ s ++ b'\n' ∷ rest)
      ≡ send_string to_upper_msg_type string (s ++ b'\n' ∷ rest)
unfolding client_round
upper_round s rest command string hc =
    dispatch_upper (fgets (codes "to_upper" ++ b'\n' ∷ (s ++ b'\n' ∷ rest)) command) string
      (s ++ b'\n' ∷ rest)
      (c_string-fgets (codes "to_upper") (s ++ b'\n' ∷ rest) command
        (all-differ 0 (codes "to_upper") refl) (all-differ b'\n' (codes "to_upper") refl)
        (omega (arith, hc)))

lower_round :
    (s rest command string : List ℕ)
    → length command ≡ max_string_len
    → client_round command string (codes "to_lower\n" ++ s ++ b'\n' ∷ rest)
      ≡ send_string to_lower_msg_type string (s ++ b'\n' ∷ rest)
unfolding client_round
lower_round s rest command string hc =
    dispatch_lower (fgets (codes "to_lower" ++ b'\n' ∷ (s ++ b'\n' ∷ rest)) command) string
      (s ++ b'\n' ∷ rest)
      (c_string-fgets (codes "to_lower") (s ++ b'\n' ∷ rest) command
        (all-differ 0 (codes "to_lower") refl) (all-differ b'\n' (codes "to_lower") refl)
        (omega (arith, hc)))

-- A sent request, what the server answers to it, and the string and the status in the answer, whose
-- array is whole.
abbrev pub IsAnswered : Action → Response → List ℕ → Type 0
IsAnswered a r s =
    (q : Request) × (r' : Response) × (a ≡ send q)
    × (serve q r ≡ some (reply r', r'))
    × (c_string r'.result ≡ s)
    × (r'.status ≡ 0)
    × (length r'.result ≡ max_string_len)

-- That for what a round of the client gives, with the input that it leaves.
abbrev pub IsServed : Action × List ℕ → Response → List ℕ → List ℕ → Type 0
IsServed round r s rest = IsAnswered round.0 r s × (round.1 ≡ rest)

module _ (s rest command string : List ℕ) (r : Response) (l : IsLine s) (ascii : IsAscii s)
    (hc : length command ≡ max_string_len) (hs : length string ≡ max_string_len)
    (hr : length r.result ≡ max_string_len) where
  upper_service :
      IsServed
        (client_round command string (codes "to_upper\n" ++ s ++ b'\n' ∷ rest))
        r
        (map toupper (s ++ b'\n' ∷ []))
        rest
  unfolding client_round
  upper_service =
      let (m, e) = request_string s rest string l hs in
      let (r', served, case, ok, len) =
        upper_reply (strncpy max_string_len (fgets (s ++ b'\n' ∷ rest) string)) (s ++ b'\n' ∷ []) m
          r e (IsLine-IsText s l) (IsAscii-line s ascii) (IsLine-length s l) hr in
      (
        (_, r', ap (λ p. p.0) (upper_round s rest command string hc), served, case, ok, len),
        ap (λ p. p.1) (upper_round s rest command string hc) ∙ after_text s rest l,
      )

  lower_service :
      IsServed
        (client_round command string (codes "to_lower\n" ++ s ++ b'\n' ∷ rest))
        r
        (map tolower (s ++ b'\n' ∷ []))
        rest
  unfolding client_round
  lower_service =
      let (m, e) = request_string s rest string l hs in
      let (r', served, case, ok, len) =
        lower_reply (strncpy max_string_len (fgets (s ++ b'\n' ∷ rest) string)) (s ++ b'\n' ∷ []) m
          r e (IsLine-IsText s l) (IsAscii-line s ascii) (IsLine-length s l) hr in
      (
        (_, r', ap (λ p. p.0) (lower_round s rest command string hc), served, case, ok, len),
        ap (λ p. p.1) (lower_round s rest command string hc) ∙ after_text s rest l,
      )

  -- The line typed after the command `to_upper` or `to_lower`, if it is ASCII and fits into the array, is sent to
  -- the server, which answers with status 0 and the line in that case, whatever was in the arrays
  -- before; the rest of the input is left.
  pub case_service :
      IsServed
        (client_round command string (codes "to_upper\n" ++ s ++ b'\n' ∷ rest))
        r
        (map toupper (s ++ b'\n' ∷ []))
        rest
      × IsServed
          (client_round command string (codes "to_lower\n" ++ s ++ b'\n' ∷ rest))
          r
          (map tolower (s ++ b'\n' ∷ []))
          rest
  case_service = (upper_service, lower_service)
