-- ===== src/Launcher/Split.antt =====
-- The command line of src/main.c: `split_by_space`, `prepend` and the line that is read.
use qnx_box.Prelude.{
  ℕ, zero, suc, ◌+◌, ◌≤◌, ◌<◌, ◌≡◌, refl, ◌≢◌, ap, ◌∙◌, true, false, not, ◌&&◌, all, none, some,
  List, [], ◌∷◌, ◌++◌, arith, ◌==◌, length, length-append, All, All-append,
}
use qnx_box.CString.{
  IsText, codes, c_string, overwrite, fgets, c_string-overwrite, length-overwrite, length-fgets,
  fgets-line,
}
use qnx_box.Launcher.{
  is_delimiter, token, after_token, strtok, split_by_space, chop, prepend, split_line, prepend_more,
  read_args,
}

-- An argument: no NUL and no delimiter in it, and not empty.
abbrev pub IsArgument : List ℕ → Type 0
IsArgument w = All (λ c. (c ≢ 0) × (is_delimiter c ≡ false)) w × (0 < length w)

-- The characters of a literal, by computation.
pub argument-bytes :
    (w : List ℕ)
    → all (λ c. not (c == 0) && not (is_delimiter c)) w ≡ true
    → All (λ c. (c ≢ 0) × (is_delimiter c ≡ false)) w
argument-bytes [] h = tt
argument-bytes (c ∷ w) h = ((ground arith, ground arith), argument-bytes w (ground arith))

-- The arguments with a space between them.
abbrev pub join : List ℕ → List (List ℕ) → List ℕ
join w [] = w
join w (v ∷ ws) = w ++ b' ' ∷ join v ws

token-append :
    (w rest : List ℕ)
    → All (λ c. (c ≢ 0) × (is_delimiter c ≡ false)) w
    → (token (w ++ b' ' ∷ rest) ≡ w) × (after_token (w ++ b' ' ∷ rest) ≡ rest)
token-append [] rest h = (refl, refl)
token-append (c ∷ w) rest ((ne, d), h) = ground (arith, token-append w rest h)

token-whole :
    (w : List ℕ)
    → All (λ c. (c ≢ 0) × (is_delimiter c ≡ false)) w
    → (token w ≡ w) × (after_token w ≡ [])
token-whole [] h = (refl, refl)
token-whole (c ∷ w) ((ne, d), h) = ground (arith, token-whole w h)

strtok-append : (w rest : List ℕ) → IsArgument w → strtok (w ++ b' ' ∷ rest) ≡ some (w, rest)
strtok-append [] rest (h, ne) = absurd (omega arith)
strtok-append (c ∷ w) rest ((d, h), ne) = ground (arith, d, token-append w rest h)

strtok-whole : (w : List ℕ) → IsArgument w → strtok w ≡ some (w, [])
strtok-whole [] (h, ne) = absurd (omega arith)
strtok-whole (c ∷ w) ((d, h), ne) = ground (arith, d, token-whole w h)

-- Splitting undoes joining, with fuel for one call of strtok for each argument and one more.
pub split_by_space-join :
    (fuel : ℕ) (w : List ℕ) (ws : List (List ℕ))
    → IsArgument w
    → All IsArgument ws
    → suc (length ws) < fuel
    → split_by_space fuel (join w ws) ≡ some (w ∷ ws)
unfolding split_by_space
split_by_space-join zero w ws h hs lt = absurd (omega arith)
split_by_space-join (suc zero) w ws h hs lt = absurd (omega arith)
split_by_space-join (suc (suc k)) w [] h hs lt = rw (split_by_space, strtok-whole w h)
split_by_space-join (suc (suc k)) w (v ∷ ws) h (hv, hs) lt = rw (
  split_by_space,
  strtok-append w (join v ws) h,
  split_by_space-join (suc k) v ws hv hs (omega arith),
)

length-join :
    (w : List ℕ) (ws : List (List ℕ))
    → IsArgument w
    → All IsArgument ws
    → length ws + 1 ≤ length (join w ws)
length-join w [] (h, ne) hs = omega (arith, ne)
length-join w (v ∷ ws) (h, ne) (hv, hs) =
    omega (arith, ne, length-append w (b' ' ∷ join v ws), length-join v ws hv hs)

-- An argument is a text of one line, and so are joined arguments.
abbrev pub IsOneLine : List ℕ → Type 0
IsOneLine s = IsText s × All (λ c. c ≢ b'\n') s

argument-IsOneLine : (w : List ℕ) → All (λ c. (c ≢ 0) × (is_delimiter c ≡ false)) w → IsOneLine w
argument-IsOneLine [] h = (tt, tt)
argument-IsOneLine (c ∷ w) ((ne, d), h) =
    let (t, l) = argument-IsOneLine w h in ((ne, t), ((λ e. ground arith), l))

pub IsOneLine-append : (s t : List ℕ) → IsOneLine s → IsOneLine t → IsOneLine (s ++ t)
IsOneLine-append s t (a, b) (c, d) =
    (All-append (λ c. c ≢ 0) s t a c, All-append (λ c. c ≢ b'\n') s t b d)

pub space-IsOneLine : IsOneLine (codes " ")
space-IsOneLine = (((λ e. absurd (omega arith)), tt), ((λ e. absurd (omega arith)), tt))

join-IsOneLine :
    (w : List ℕ) (ws : List (List ℕ)) → IsArgument w → All IsArgument ws → IsOneLine (join w ws)
join-IsOneLine w [] (h, ne) hs = argument-IsOneLine w h
join-IsOneLine w (v ∷ ws) (h, ne) (hv, hs) =
    IsOneLine-append w (b' ' ∷ join v ws) (argument-IsOneLine w h)
      (IsOneLine-append (codes " ") (join v ws) space-IsOneLine (join-IsOneLine v ws hv hs))

length-chop : (s : List ℕ) → length (chop s) ≡ length s
length-chop [] = refl
length-chop (c ∷ s) = ground (arith, length-chop s)

-- The newline that fgets left is cut off.
chop-line :
    (s buf : List ℕ)
    → IsOneLine s
    → suc (length s) < length buf
    → c_string (chop (overwrite ((s ++ b'\n' ∷ []) ++ 0 ∷ []) buf)) ≡ s
chop-line [] [] h lt = absurd (omega arith)
chop-line [] (d ∷ buf) h lt = refl
chop-line (c ∷ s) [] h lt = absurd (omega arith)
chop-line (c ∷ s) (d ∷ buf) ((ne, t), (nl, l)) lt =
    ground (arith, chop-line s buf (t, l) (omega arith))

pub prepend_lem :
    (s t x : List ℕ)
    → c_string s ≡ x
    → IsText t
    → IsText x
    → length t + length x < length s
    → (s' : List ℕ) × (prepend s t ≡ some s') × (c_string s' ≡ t ++ x) × (length s' ≡ length s)
unfolding prepend
prepend_lem s t x e ht hx room = (
  overwrite (t ++ c_string s ++ 0 ∷ []) s,
  ground (arith, ap length e),
  ap (λ l. c_string (overwrite l s)) (ap (λ y. t ++ y ++ 0 ∷ []) e)
      ∙ c_string-overwrite (t ++ x) s (All-append (λ c. c ≢ 0) t x ht hx)
          (omega (arith, length-append t x)),
  length-overwrite (t ++ c_string s ++ 0 ∷ []) s,
)

prepend-overruns : (s t : List ℕ) → length s ≤ length t + length (c_string s) → prepend s t ≡ none
unfolding prepend
prepend-overruns s t h = ground arith

-- The array after the line was read and chopped.
pub read-line :
    (s rest buf : List ℕ)
    → IsOneLine s
    → suc (suc (length s)) ≤ length buf
    → c_string (chop (fgets (s ++ b'\n' ∷ rest) buf)) ≡ s
read-line s rest buf (t, l) room =
    ap (λ b. c_string (chop b)) (fgets-line s rest buf l (omega arith))
    ∙ chop-line s buf (t, l) (omega arith)

pub length-read : (input buf : List ℕ) → length (chop (fgets input buf)) ≡ length buf
length-read input buf = length-chop (fgets input buf) ∙ length-fgets input buf

module _ (arg_line rest argv0 : List ℕ) (h0 : IsArgument argv0) (hl : length arg_line ≡ 256) where
  -- Arguments that are typed with spaces between them are those that `main` goes on with, behind the
  -- program's name, if the line and the name fit together into the array of 256 bytes.
  pub read_args-join :
      (w : List ℕ) (ws : List (List ℕ))
      → IsArgument w
      → All IsArgument ws
      → length argv0 + 1 + length (join w ws) < 256
      → read_args arg_line (join w ws ++ b'\n' ∷ rest) argv0 ≡ some (argv0 ∷ w ∷ ws)
  unfolding read_args
  read_args-join w ws hw hws room =
      let line = join-IsOneLine w ws hw hws in
      let name = argument-IsOneLine argv0 h0.0 in
      let read = read-line (join w ws) rest arg_line line (omega (arith, hl, h0.1)) in
      let input = join w ws ++ b'\n' ∷ rest in
      let (a, done, ca, la) =
        prepend_lem (chop (fgets input arg_line)) (codes " ") (join w ws) read space-IsOneLine.0
          line.0 (omega (arith, length-read input arg_line, hl, h0.1)) in
      let (b, done', cb, lb) =
        prepend_lem a argv0 (b' ' ∷ join w ws) ca name.0
          (IsOneLine-append (codes " ") (join w ws) space-IsOneLine line).0
          (omega (arith, la, length-read input arg_line, hl)) in
      ap (λ o. split_line (prepend_more o argv0)) done
      ∙ ap split_line done'
      ∙ ap (split_by_space (length b + 1)) cb
      ∙ split_by_space-join (length b + 1) argv0 (w ∷ ws) h0 (hw, hws)
          (omega
            (arith, lb, la, length-read input arg_line, hl, room, h0.1, length-join w ws hw hws))

  -- A line that fgets takes whole is moved behind the end of the array if it does not fit together
  -- with the program's name and the space.
  pub read_args-overruns :
      (s : List ℕ)
      → IsOneLine s
      → length s ≤ 254
      → 256 ≤ length argv0 + 1 + length s
      → read_args arg_line (s ++ b'\n' ∷ rest) argv0 ≡ none
  unfolding read_args
  read_args-overruns s hs short long =
      let name = argument-IsOneLine argv0 h0.0 in
      let read = read-line s rest arg_line hs (omega (arith, hl)) in
      let input = s ++ b'\n' ∷ rest in
      let (a, done, ca, la) =
        prepend_lem (chop (fgets input arg_line)) (codes " ") s read space-IsOneLine.0 hs.0
          (omega (arith, length-read input arg_line, hl)) in
      ap (λ o. split_line (prepend_more o argv0)) done
      ∙ ap split_line (
          prepend-overruns a argv0
            (omega (arith, la, length-read input arg_line, ap length ca, hl)))
