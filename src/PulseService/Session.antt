-- ===== src/PulseService/Session.antt =====
-- The client of src/20.lab_pulse_client.c with the server of src/20.lab_pulse_server.c.
use qnx_box.Prelude.{
  ℕ, ◌≡◌, refl, ap, ◌∙◌, Bool, true, false, ◌&&◌, ◌||◌, none, List, [], ◌∷◌, ◌++◌, ◌==◌, arith,
}
use qnx_box.PulseService.{
  Received, receive_fails, pulse, message, ServerLine, got_pulse, Refusal, refusal, Served, serve,
  attempting, sending, send_failed, Sent, sent_pulse, sent_message, Outcomes, Client, request,
  pulse_client, pulse_value,
}

-- Nothing that arrives makes the server exit.
abbrev pub is_good : Received → Bool
is_good receive_fails = false
is_good (pulse code value) = true
is_good (message rcvid error_ok q) = error_ok

abbrev pub all_good : List Received → Bool
all_good [] = true
all_good (e ∷ es) = is_good e && all_good es

abbrev pub pulse_lines : List Received → List ServerLine
pulse_lines [] = []
pulse_lines (pulse code value ∷ es) = got_pulse code value ∷ pulse_lines es
pulse_lines (_ ∷ es) = pulse_lines es

abbrev pub all_refused : ℕ → List Received → List Refusal
all_refused enosys [] = []
all_refused enosys (message rcvid error_ok q ∷ es) = refusal rcvid enosys ∷ all_refused enosys es
all_refused enosys (_ ∷ es) = all_refused enosys es

-- What the kernel makes of what the client sends. MsgError can fail only if the client goes away.
abbrev pub arriving : ℕ → List Sent → List Received
arriving rcvid [] = []
arriving rcvid (sent_pulse code value ∷ ss) = pulse code value ∷ arriving rcvid ss
arriving rcvid (sent_message q ∷ ss) = message rcvid true q ∷ arriving rcvid ss

abbrev pub is_refused : ℕ → List Refusal → Bool
is_refused rcvid [] = false
is_refused rcvid (refusal r errno ∷ rs) = (r == rcvid) || is_refused rcvid rs

serve-append :
    (enosys : ℕ) (before es : List Received)
    → all_good before ≡ true
    → ((serve enosys (before ++ es)).lines ≡ pulse_lines before ++ (serve enosys es).lines)
      × ((serve enosys (before ++ es)).refusals
          ≡ all_refused enosys before ++ (serve enosys es).refusals)
unfolding serve
serve-append enosys [] es g = (refl, refl)
serve-append enosys (receive_fails ∷ before) es g = absurd (ground arith)
serve-append enosys (pulse code value ∷ before) es g =
    let (l, r) = serve-append enosys before es g in (ap (λ x. got_pulse code value ∷ x) l, r)
serve-append enosys (message rcvid true q ∷ before) es g =
    let (l, r) = serve-append enosys before es g in (l, ap (λ x. refusal rcvid enosys ∷ x) r)
serve-append enosys (message rcvid false q ∷ before) es g = absurd (ground arith)

is_refused-append :
    (rcvid : ℕ) (rs ss : List Refusal)
    → is_refused rcvid (rs ++ ss) ≡ (is_refused rcvid rs || is_refused rcvid ss)
is_refused-append rcvid [] ss = refl
is_refused-append rcvid (refusal r errno ∷ rs) ss = ground (arith, is_refused-append rcvid rs ss)

module _ (enosys rcvid : ℕ) (atoi : List ℕ → ℕ) (prog program pid chid argument buffer : List ℕ)
    (o : Outcomes) (before after : List Received) where
  abbrev pub client : Client
  client = pulse_client atoi buffer o (prog ∷ program ∷ pid ∷ chid ∷ argument ∷ [])

  abbrev pub served : Served
  served = serve enosys (before ++ (arriving rcvid client.sent ++ after))

  client-sent :
      o.connect_ok ≡ true
      → o.pulse_ok ≡ true
      → client.sent ≡ sent_pulse 3 pulse_value ∷ sent_message (request argument buffer) ∷ []
  unfolding pulse_client
  client-sent c p = ground (arith, c, p)

  client-fails :
      o.connect_ok ≡ true
      → o.pulse_ok ≡ true
      → o.reply ≡ none
      → (client.lines
          ≡ attempting (atoi pid) (atoi chid)
            ∷ sending (request argument buffer).string
            ∷ send_failed
            ∷ [])
        × (client.status ≡ 1)
  unfolding pulse_client
  client-fails c p n = (rw (c, p, n) refl, rw (c, p, n) refl)

  served_lem :
      all_good before ≡ true
      → o.connect_ok ≡ true
      → o.pulse_ok ≡ true
      → (is_refused rcvid served.refusals ≡ true)
        × (served.lines
            ≡ pulse_lines before ++ got_pulse 3 pulse_value ∷ (serve enosys after).lines)
  unfolding serve
  served_lem g c p =
      let (l, r) = serve-append enosys before (arriving rcvid client.sent ++ after) g in
      let e = client-sent c p in
      (
        ap (is_refused rcvid) r
            ∙ is_refused-append rcvid (all_refused enosys before) _
            ∙ rw e (ground arith),
        l ∙ ap (λ ss. pulse_lines before ++ (serve enosys (arriving rcvid ss ++ after)).lines) e,
      )

  -- If nothing before makes the server exit, and MsgSend returns -1 to a client that is refused, which is
  -- what it is documented to do: the server prints the client's pulse behind those before, and the client,
  -- whose connection and pulse succeed, always exits with a failure, after the line of its string, and never
  -- shows a checksum.
  pub never_a_checksum :
      all_good before ≡ true
      → o.connect_ok ≡ true
      → o.pulse_ok ≡ true
      → (is_refused rcvid served.refusals ≡ true → o.reply ≡ none)
      → (served.lines ≡ pulse_lines before ++ got_pulse 3 pulse_value ∷ (serve enosys after).lines)
        × (client.lines
            ≡ attempting (atoi pid) (atoi chid)
              ∷ sending (request argument buffer).string
              ∷ send_failed
              ∷ [])
        × (client.status ≡ 1)
  never_a_checksum g c p documented =
      let (refused, lines) = served_lem g c p in
      let (shown, status) = client-fails c p (documented refused) in (lines, shown, status)
