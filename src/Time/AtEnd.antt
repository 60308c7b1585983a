-- ===== src/Time/AtEnd.antt =====
-- The loop of src/29.lab_time.c at the end of the input.
use qnx_box.Prelude.{ℕ, zero, suc, ◌-◌, ◌≡◌, refl, ap, ◌∙◌, false, some, List, [], ◌∷◌, length}
use qnx_box.CString.{codes, c_string, after_line}
use qnx_box.Time.{Os, Output, round, loop}
use qnx_box.Time.Commands.{get, answer, run-get, loop-next}

after_line-end : (k : ℕ) → after_line k [] ≡ []
after_line-end zero = refl
after_line-end (suc k) = refl

round-get :
    (os : Os) (buf : List ℕ)
    → c_string buf ≡ codes "get\n"
    → round os (record { command = buf; input = [] })
      ≡ some (answer os get, record { command = buf; input = after_line (length buf - 1) [] })
unfolding round
round-get os buf last = run-get os _ last

abbrev pub all_shown : List Os → List Output
all_shown [] = []
all_shown (os ∷ later) = answer os get ∷ all_shown later

-- At the end of the input the last command is done again in every round, and the loop is never left.
pub end_repeats :
    (buf : List ℕ) (later : List Os)
    → c_string buf ≡ codes "get\n"
    → loop (record { command = buf; input = [] }) later
      ≡ record { outputs = all_shown later; is_left = false }
unfolding loop
end_repeats buf [] last = refl
end_repeats buf (os ∷ later) last =
    loop-next os later _ (record { command = buf; input = after_line (length buf - 1) [] })
      (answer os get) (round-get os buf last)
    ∙ ap
        (λ i.
          let r = loop (record { command = buf; input = i }) later in
          record { outputs = answer os get ∷ r.outputs; is_left = r.is_left })
        (after_line-end (length buf - 1))
    ∙ ap (λ r. record { outputs = answer os get ∷ r.outputs; is_left = r.is_left })
        (end_repeats buf later last)
