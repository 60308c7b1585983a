-- ===== src/Launcher/Call.antt =====
-- The table of src/include/qnx_lab.h and the choice that `main` of src/main.c makes in it.
use qnx_box.Prelude.{
  ℕ, zero, suc, ◌+◌, ◌*◌, ◌<◌, ◌≡◌, refl, Bool, true, ◌&&◌, not, none, some, List, [], ◌∷◌, arith,
  length, get_elem?, all,
}
use qnx_box.CString.{codes, c_string, same_bytes, strcmp_eq}
use qnx_box.Launcher.{qnx_labs, find_lab, dispatch, call, store_args, copy_args}

-- No two names of the table are equal.
abbrev distinct : List (List ℕ) → Bool
distinct [] = true
distinct (lab ∷ labs) = all (λ l. not (strcmp_eq l lab)) labs && distinct labs

differs :
    (p : List ℕ → Bool) (labs : List (List ℕ)) (j : ℕ) (lab : List ℕ)
    → all p labs ≡ true
    → get_elem? labs j ≡ some lab
    → p lab ≡ true
differs p [] j lab h e = absurd (ground arith)
differs p (l ∷ labs) zero lab h e = ground arith
differs p (l ∷ labs) (suc j) lab h e = differs p labs j lab (ground arith) e

same_bytes_self : (s : List ℕ) → same_bytes s s ≡ true
same_bytes_self [] = refl
same_bytes_self (c ∷ s) = ground (arith, same_bytes_self s)

find_lab_lem :
    (labs : List (List ℕ)) (i j : ℕ) (lab : List ℕ)
    → distinct labs ≡ true
    → get_elem? labs j ≡ some lab
    → find_lab labs i lab ≡ some (i + j)
unfolding find_lab
find_lab_lem [] i j lab d e = absurd (ground arith)
find_lab_lem (l ∷ labs) i zero lab d e = ground (arith, same_bytes_self (c_string l))
find_lab_lem (l ∷ labs) i (suc j) lab d e = ground (
  arith,
  differs (λ x. not (strcmp_eq x l)) labs j lab (ground arith) e,
  find_lab_lem labs (i + 1) j lab (ground arith) e,
)

-- Every laboratory is called by its name, with all the arguments: the names of the table are
-- distinct, and none of them is "help".
pub every_lab_found :
    (i : ℕ) (program name : List ℕ) (args : List (List ℕ))
    → get_elem? qnx_labs i ≡ some name
    → dispatch (program ∷ name ∷ args) ≡ call i (program ∷ name ∷ args)
unfolding dispatch
every_lab_found i program name args e = ground (
  arith,
  differs (λ l. not (strcmp_eq l (codes "help"))) qnx_labs i name refl e,
  find_lab_lem qnx_labs 0 i name refl e,
)

store_args-overruns :
    (block i : ℕ) (argv : List (List ℕ))
    → block < 8 * (i + length argv + 1)
    → store_args block i argv ≡ none
unfolding store_args
store_args-overruns block i [] h = ground arith
store_args-overruns block i (a ∷ argv) h =
    ground (arith, store_args-overruns block (i + 1) argv (omega arith))

-- Whatever the arguments, the NULL behind their copies is stored partly behind the block: it is 7
-- bytes too small.
pub copy_args-overruns : (argv : List (List ℕ)) → copy_args argv ≡ none
unfolding copy_args
copy_args-overruns argv = store_args-overruns (8 * length argv + 1) 0 argv (omega arith)
