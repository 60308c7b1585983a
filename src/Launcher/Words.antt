-- ===== src/Launcher/Words.antt =====
-- The command line of src/main.c against a definition of its words without strtok.
use qnx_box.Prelude.{
  ℕ, zero, suc, ◌+◌, ◌≤◌, ◌<◌, ◌≡◌, refl, sym, ap, ◌∙◌, Bool, true, false, not, Option, none, some,
  List, [], ◌∷◌, ◌++◌, arith, length, if◌then◌else◌, Bool-cases, length-append, inl, inr,
}
use qnx_box.CString.{codes, fgets}
use qnx_box.Launcher.{
  is_delimiter, skip_delimiters, token, after_token, first_token, put_token, split_by_space, chop,
  split_line, prepend_more, read_args,
}
use qnx_box.Launcher.Split.{
  IsOneLine, IsOneLine-append, space-IsOneLine, read-line, length-read, prepend_lem,
}

-- A word goes on in front of a text.
abbrev pub goes_on : List ℕ → Bool
goes_on [] = false
goes_on (c ∷ s) = not (is_delimiter c)

abbrev pub put_char : ℕ → Bool → List (List ℕ) → List (List ℕ)
put_char c true (w ∷ ws) = (c ∷ w) ∷ ws
put_char c _ ws = (c ∷ []) ∷ ws

-- The words of a text: its longest runs of characters that are not delimiters.
unfoldable pub words : List ℕ → List (List ℕ)
words [] = []
words (c ∷ s) = let ws = words s in if is_delimiter c then ws else put_char c (goes_on s) ws

words-skip : (s : List ℕ) → words (skip_delimiters s) ≡ words s
unfolding words
words-skip [] = refl
words-skip (c ∷ s) = ground (arith, words-skip s)

-- The word that a character begins.
put_char-token :
    (c : ℕ) (s : List ℕ) → put_char c (goes_on s) (words s) ≡ (c ∷ token s) ∷ words (after_token s)
unfolding words
put_char-token c [] = refl
put_char-token c (d ∷ s) = elim (Bool-cases (is_delimiter d)) [
  | inl ends ↦ rw (ends, words) refl
  | inr more ↦ rw (more, words) (ap (put_char c true) (put_char-token d s))
]

words-token :
    (c : ℕ) (s : List ℕ)
    → is_delimiter c ≡ false
    → words (c ∷ s) ≡ token (c ∷ s) ∷ words (after_token (c ∷ s))
unfolding words
words-token c s in_word = rw (words, in_word) (put_char-token c s)

-- What is left when delimiters are skipped begins with a word.
skip-first : (s u : List ℕ) (c : ℕ) → skip_delimiters s ≡ c ∷ u → is_delimiter c ≡ false
skip-first [] u c e = absurd cc
skip-first (d ∷ s) u c e = ground (arith, skip-first s u c)

length-skip : (s : List ℕ) → length (skip_delimiters s) ≤ length s
length-skip [] = omega arith
length-skip (c ∷ s) = ground (arith, length-skip s)

length-after_token : (s : List ℕ) → length (after_token s) ≤ length s
length-after_token [] = omega arith
length-after_token (c ∷ s) = ground (arith, length-after_token s)

abbrev go_on : ℕ → Option (List ℕ × List ℕ) → Option (List (List ℕ))
go_on k none = some []
go_on k (some (t, rest)) = put_token t (split_by_space k rest)

split-rest :
    (k : ℕ) (s r : List ℕ)
    → skip_delimiters s ≡ r
    → ((u : List ℕ) → length u < length s → split_by_space k u ≡ some (words u))
    → split_by_space (suc k) s ≡ some (words s)
unfolding split_by_space words
split-rest k s [] e rest =
    ap (λ t. go_on k (first_token t)) e ∙ ap some (sym (ap words e) ∙ words-skip s)
split-rest k s (c ∷ u) e rest =
    let in_word = skip-first s u c e in
    let shorter : length (after_token (c ∷ u)) < length s =
      ground (arith, in_word, length-after_token u, length-skip s, ap length e) in
    ap (λ t. go_on k (first_token t)) e
    ∙ ap (put_token (token (c ∷ u))) (rest (after_token (c ∷ u)) shorter)
    ∙ ap some (sym (words-token c u in_word) ∙ sym (ap words e) ∙ words-skip s)

-- strtok finds the words, with fuel for one call for each character and one more.
split_by_space-words : (k : ℕ) (s : List ℕ) → length s < k → split_by_space k s ≡ some (words s)
split_by_space-words zero s lt = absurd (omega arith)
split_by_space-words (suc k) s lt =
    split-rest k s (skip_delimiters s) refl (λ u less. split_by_space-words k u (omega arith))

module _ (arg_line rest argv0 s : List ℕ) where
  -- Whatever is typed, in one line and without NULs, with spaces and tabs in any number and place: if it
  -- fits together with the program's name into the array of 256 bytes, the arguments that `main` goes on
  -- with are the words of the name and of the line.
  pub read_args-words :
      length arg_line ≡ 256
      → IsOneLine argv0
      → IsOneLine s
      → length argv0 + 1 + length s < 256
      → read_args arg_line (s ++ b'\n' ∷ rest) argv0 ≡ some (words (argv0 ++ b' ' ∷ s))
  unfolding read_args
  read_args-words hl name line room =
      let read = read-line s rest arg_line line (omega (arith, hl)) in
      let input = s ++ b'\n' ∷ rest in
      let (a, done, ca, la) =
        prepend_lem (chop (fgets input arg_line)) (codes " ") s read space-IsOneLine.0 line.0
          (omega (arith, length-read input arg_line, hl)) in
      let (b, done', cb, lb) =
        prepend_lem a argv0 (b' ' ∷ s) ca name.0
          (IsOneLine-append (codes " ") s space-IsOneLine line).0
          (omega (arith, la, length-read input arg_line, hl)) in
      ap (λ o. split_line (prepend_more o argv0)) done
      ∙ ap split_line done'
      ∙ ap (split_by_space (length b + 1)) cb
      ∙ split_by_space-words (length b + 1) (argv0 ++ b' ' ∷ s) (
          omega
            (arith, lb, la, length-read input arg_line, hl, room, length-append argv0 (b' ' ∷ s)))
