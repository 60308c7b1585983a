-- ===== src/Orange/Main/Prints.antt =====
-- What src/12.orange_problem.c prints, with its threads.
use qnx_box.Prelude.{ℕ, zero, suc, List, [], ◌∷◌, ℤ}
use qnx_box.Calls.{Event, acted}
use qnx_box.Orange.Main.{Call, Action, print}

-- The lines of the array.
abbrev pub prints : List (Event Call Action) → List (List ℤ)
prints [] = []
prints (acted (print line) ∷ es) = line ∷ prints es
prints (_ ∷ es) = prints es

abbrev pub replicate : ℕ → ℤ → List ℤ
replicate zero v = []
replicate (suc n) v = v ∷ replicate n v
