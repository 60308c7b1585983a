-- ===== src/PulseService/Tests.antt =====
-- The pulse client and server of src/20.lab_pulse_client.c at concrete arguments.
use qnx_box.Prelude.{ℕ, ◌+◌, ◌-◌, ◌*◌, ◌≡◌, refl, true, none, List, [], ◌∷◌}
use qnx_box.CString.{codes, zeros}
use qnx_box.PulseService.{
  serve, Received, pulse, message, got_pulse, pulse_value, Outcomes, attempting, sending,
  send_failed, request,
}
use qnx_box.PulseService.Session.{client, served, never_a_checksum}

-- atoi, of digits
abbrev number : ℕ → List ℕ → ℕ
number n [] = n
number n (c ∷ cs) = number (n * 10 + (c - 48)) cs

abbrev outcomes : Outcomes
outcomes = record { connect_ok = true; pulse_ok = true; reply = none }

abbrev earlier : List Received
earlier = pulse 5 1 ∷ message 8 true (request (codes "hi") (zeros 256)) ∷ []

never_a_checksum_example :
    ((served 89 9
        (number 0)
        []
        []
        (codes "41")
        (codes "1")
        (codes "sum")
        (zeros 256)
        outcomes
        earlier
        []).lines
      ≡ got_pulse 5 1 ∷ got_pulse 3 pulse_value ∷ [])
    × ((client 89 9
          (number 0)
          []
          []
          (codes "41")
          (codes "1")
          (codes "sum")
          (zeros 256)
          outcomes
          earlier
          []).lines
        ≡ attempting 41 1 ∷ sending (request (codes "sum") (zeros 256)).string ∷ send_failed ∷ [])
    × ((client 89 9
          (number 0)
          []
          []
          (codes "41")
          (codes "1")
          (codes "sum")
          (zeros 256)
          outcomes
          earlier
          []).status
        ≡ 1)
unfolding serve
never_a_checksum_example =
    never_a_checksum 89 9 (number 0) [] [] (codes "41") (codes "1") (codes "sum") (zeros 256)
      outcomes earlier [] refl refl refl (λ e. refl)
