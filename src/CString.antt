-- ===== src/CString.antt =====
-- C strings in arrays of bytes, and what the programs use of the C library on them: fgets, strcmp,
-- strncpy, strlcpy, toupper and tolower in the "C" locale.
use Prim.Native.Char.{code}
use Prim.Native.String.{String}
use qnx_box.Prelude.{
  Option, none, some, ℕ, zero, suc, ◌+◌, ◌-◌, ◌≤◌, ◌<◌, ◌≡◌, refl, ◌≢◌, ap, ◌∙◌, Bool, true, false,
  ◌&&◌, List, [], ◌∷◌, ◌++◌, map, arith, leb, ◌==◌, if◌then◌else◌, length, length-append, all, not,
  All, All-append, inl, inr, Bool-cases,
}

-- The bytes in front of the first NUL.
abbrev pub c_string : List ℕ → List ℕ
c_string [] = []
c_string (c ∷ cs) = if c == 0 then [] else c ∷ c_string cs

abbrev pub is_terminated : List ℕ → Bool
is_terminated [] = false
is_terminated (c ∷ cs) = if c == 0 then true else is_terminated cs

-- No byte is NUL.
abbrev pub IsText : List ℕ → Type 0
IsText = All (λ c. c ≢ 0)

abbrev pub same_bytes : List ℕ → List ℕ → Bool
same_bytes [] [] = true
same_bytes (a ∷ xs) (b ∷ ys) = (a == b) && same_bytes xs ys
same_bytes _ _ = false

-- strcmp(a, b) == 0
abbrev pub strcmp_eq : List ℕ → List ℕ → Bool
strcmp_eq a b = same_bytes (c_string a) (c_string b)

-- An argument that is one of two words: the first is true.
abbrev pub choice : List ℕ → List ℕ → List ℕ → Option Bool
choice on off arg =
    if strcmp_eq arg on then some true else if strcmp_eq arg off then some false else none

-- The bytes of `s` over those of `dest`, from its start; none fits behind its end.
abbrev pub overwrite : List ℕ → List ℕ → List ℕ
overwrite [] dest = dest
overwrite (c ∷ s) [] = []
overwrite (c ∷ s) (d ∷ dest) = c ∷ overwrite s dest

-- A line of at most `k` bytes: up to a newline, which it includes, or to the end of the input.
abbrev pub line : ℕ → List ℕ → List ℕ
line zero input = []
line (suc k) [] = []
line (suc k) (c ∷ input) = if c == b'\n' then c ∷ [] else c ∷ line k input

abbrev pub after_line : ℕ → List ℕ → List ℕ
after_line zero input = input
after_line (suc k) [] = []
after_line (suc k) (c ∷ input) = if c == b'\n' then input else after_line k input

-- The array after fgets(buf, length buf, stdin). At the end of the input it is left alone.
abbrev pub fgets : List ℕ → List ℕ → List ℕ
fgets [] buf = buf
fgets (c ∷ input) buf = overwrite (line (length buf - 1) (c ∷ input) ++ 0 ∷ []) buf

abbrev pub zeros : ℕ → List ℕ
zeros zero = []
zeros (suc n) = 0 ∷ zeros n

pub length-zeros : (n : ℕ) → length (zeros n) ≡ n
length-zeros zero = refl
length-zeros (suc n) = ap suc (length-zeros n)

-- The array after strncpy(dest, src, n), where n is its size: padded by NULs, or cut off.
abbrev pub strncpy : ℕ → List ℕ → List ℕ
strncpy zero src = []
strncpy (suc n) [] = 0 ∷ zeros n
strncpy (suc n) (c ∷ src) = if c == 0 then 0 ∷ zeros n else c ∷ strncpy n src

-- The array after strlcpy(dest, src, size), where size is its length: always terminated.
abbrev pub strlcpy : List ℕ → List ℕ → List ℕ
strlcpy src [] = []
strlcpy src (d ∷ []) = 0 ∷ []
strlcpy [] (d ∷ e ∷ dest) = 0 ∷ e ∷ dest
strlcpy (c ∷ src) (d ∷ e ∷ dest) =
    let rest = strlcpy src (e ∷ dest) in if c == 0 then 0 ∷ e ∷ dest else c ∷ rest

abbrev pub take : ℕ → List ℕ → List ℕ
take zero xs = []
take (suc n) [] = []
take (suc n) (x ∷ xs) = x ∷ take n xs

unfoldable pub toupper : ℕ → ℕ
toupper c = if leb b'a' c && leb c b'z' then c - 32 else c

unfoldable pub tolower : ℕ → ℕ
tolower c = if leb b'A' c && leb c b'Z' then c + 32 else c

pub toupper-ne-zero : (c : ℕ) → c ≢ 0 → toupper c ≢ 0
unfolding toupper
toupper-ne-zero c ne = ground arith

pub tolower-ne-zero : (c : ℕ) → c ≢ 0 → tolower c ≢ 0
unfolding tolower
tolower-ne-zero c ne = ground arith

pub tolower-toupper : (c : ℕ) → tolower (toupper (tolower c)) ≡ tolower c
unfolding tolower toupper
tolower-toupper c = ground arith

-- What is in front of a NUL that was written behind a text.
pub c_string-terminated : (s rest : List ℕ) → IsText s → c_string (s ++ 0 ∷ rest) ≡ s
c_string-terminated [] rest t = refl
c_string-terminated (c ∷ s) rest (ne, t) = ground (arith, c_string-terminated s rest t)

pub strlcpy-is_terminated :
    (src dest : List ℕ) → dest ≢ [] → is_terminated (strlcpy src dest) ≡ true
strlcpy-is_terminated src [] ne = absurd (ne refl)
strlcpy-is_terminated src (d ∷ []) ne = refl
strlcpy-is_terminated [] (d ∷ e ∷ dest) ne = refl
strlcpy-is_terminated (c ∷ src) (d ∷ e ∷ dest) ne =
    ground (arith, strlcpy-is_terminated src (e ∷ dest) (λ h. cc))

-- strlcpy keeps as much of the source as there is room for, less one byte for the NUL.
pub c_string-strlcpy :
    (src dest : List ℕ) (n : ℕ)
    → length dest ≡ suc n
    → c_string (strlcpy src dest) ≡ take n (c_string src)
c_string-strlcpy src [] n h = absurd (omega arith)
c_string-strlcpy src (d ∷ []) zero h = refl
c_string-strlcpy src (d ∷ []) (suc n) h = absurd (omega arith)
c_string-strlcpy src (d ∷ e ∷ dest) zero h = absurd (omega arith)
c_string-strlcpy [] (d ∷ e ∷ dest) (suc n) h = refl
c_string-strlcpy (c ∷ src) (d ∷ e ∷ dest) (suc n) h =
    ground (arith, c_string-strlcpy src (e ∷ dest) n)

-- The bytes of a text literal.
abbrev pub codes : String → List ℕ
codes String.[] = []
codes (String.◌∷◌ c s) = code c ∷ codes s

pub c_string-overwrite :
    (t dest : List ℕ)
    → IsText t
    → length t < length dest
    → c_string (overwrite (t ++ 0 ∷ []) dest) ≡ t
c_string-overwrite [] [] h lt = absurd (omega arith)
c_string-overwrite [] (d ∷ dest) h lt = refl
c_string-overwrite (c ∷ t) [] h lt = absurd (omega arith)
c_string-overwrite (c ∷ t) (d ∷ dest) (ne, h) lt =
    ground (arith, c_string-overwrite t dest h (omega arith))

-- strncpy with room for the NUL copies the string and fills up with NULs.
pub strncpy-c_string :
    (n : ℕ) (src : List ℕ)
    → length (c_string src) < n
    → (m : ℕ) × (strncpy n src ≡ c_string src ++ 0 ∷ zeros m)
strncpy-c_string zero src lt = absurd (omega arith)
strncpy-c_string (suc n) [] lt = (n, refl)
strncpy-c_string (suc n) (c ∷ src) lt = elim (Bool-cases (c == 0)) [
  | inl nul ↦ (n, rw nul)
  | inr more ↦ let (m, e) = strncpy-c_string n src (ground arith) in (m, rw (more, e))
]

-- A line that fits is read with its newline, and what follows is left.
pub line-append :
    (k : ℕ) (s rest : List ℕ)
    → All (λ c. c ≢ b'\n') s
    → length s < k
    → (line k (s ++ b'\n' ∷ rest) ≡ s ++ b'\n' ∷ []) × (after_line k (s ++ b'\n' ∷ rest) ≡ rest)
line-append zero s rest h lt = absurd (omega arith)
line-append (suc k) [] rest h lt = (refl, refl)
line-append (suc k) (c ∷ s) rest (ne, h) lt = ground (arith, line-append k s rest h)

pub fgets-line :
    (s rest buf : List ℕ)
    → All (λ c. c ≢ b'\n') s
    → length s < length buf - 1
    → fgets (s ++ b'\n' ∷ rest) buf ≡ overwrite ((s ++ b'\n' ∷ []) ++ 0 ∷ []) buf
fgets-line [] rest buf h room =
    ap (λ l. overwrite (l ++ 0 ∷ []) buf) (line-append (length buf - 1) [] rest h room).0
fgets-line (c ∷ s) rest buf h room =
    ap (λ l. overwrite (l ++ 0 ∷ []) buf) (line-append (length buf - 1) (c ∷ s) rest h room).0

-- A line that fits is stored as a string, with its newline.
pub c_string-fgets :
    (s rest buf : List ℕ)
    → IsText s
    → All (λ c. c ≢ b'\n') s
    → suc (suc (length s)) ≤ length buf
    → c_string (fgets (s ++ b'\n' ∷ rest) buf) ≡ s ++ b'\n' ∷ []
c_string-fgets s rest buf t h room =
    ap c_string (fgets-line s rest buf h (omega arith))
    ∙ c_string-overwrite (s ++ b'\n' ∷ []) buf
        (All-append (λ c. c ≢ 0) s (b'\n' ∷ []) t ((λ e. absurd (omega arith)), tt))
        (omega (arith, length-append s (b'\n' ∷ [])))

pub IsText-map :
    (f : ℕ → ℕ) (s : List ℕ) → ((c : ℕ) → c ≢ 0 → f c ≢ 0) → IsText s → IsText (map f s)
IsText-map f [] k t = t
IsText-map f (c ∷ s) k (ne, t) = (k c ne, IsText-map f s k t)

pub length-map : (f : ℕ → ℕ) (s : List ℕ) → length (map f s) ≡ length s
length-map f [] = refl
length-map f (c ∷ s) = ap suc (length-map f s)

-- The characters of a literal differ from `k`, by computation.
pub all-differ : (k : ℕ) (s : List ℕ) → all (λ c. not (c == k)) s ≡ true → All (λ c. c ≢ k) s
all-differ k [] h = tt
all-differ k (c ∷ s) h = (ground arith, all-differ k s (ground arith))

pub length-overwrite : (s dest : List ℕ) → length (overwrite s dest) ≡ length dest
length-overwrite [] dest = refl
length-overwrite (c ∷ s) [] = refl
length-overwrite (c ∷ s) (d ∷ dest) = ap suc (length-overwrite s dest)

pub length-fgets : (input buf : List ℕ) → length (fgets input buf) ≡ length buf
length-fgets [] buf = refl
length-fgets (c ∷ input) buf = length-overwrite (line (length buf - 1) (c ∷ input) ++ 0 ∷ []) buf

-- The string in a terminated array is shorter than the array.
pub length-c_string : (s : List ℕ) → is_terminated s ≡ true → length (c_string s) < length s
length-c_string [] e = absurd (ground arith)
length-c_string (c ∷ s) e = ground (arith, length-c_string s)
