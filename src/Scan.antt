-- ===== src/Scan.antt =====
-- sscanf(text, "%d %d", …) of the C library on a string of bytes, without its NUL. The numbers are
-- exact: C says nothing on a number that does not fit into an int.
use native.Mathlib.Nat.{mul-le-mul_right, mul-le-mul, pow-succ', pow-le-pow_right, mul_assoc}
use qnx_box.Prelude.{
  ℕ, zero, suc, ◌+◌, ◌-◌, ◌*◌, ◌^◌, ◌≤◌, ◌≡◌, sym, ap, ◌∙◌, Bool, true, false, ◌&&◌, ◌||◌, Option,
  none, some, List, [], ◌∷◌, arith, leb, ◌==◌, if◌then◌else◌, length, ℤ, pos, pos_part, neg_part,
  sub_ℕ, Bool-cases, inl, inr,
}

abbrev pub is_space : ℕ → Bool
is_space c = (c == 32) || (leb 9 c && leb c 13)

abbrev pub is_digit : ℕ → Bool
is_digit c = leb b'0' c && leb c b'9'

abbrev pub skip_spaces : List ℕ → List ℕ
skip_spaces [] = []
skip_spaces (c ∷ s) = if is_space c then skip_spaces s else c ∷ s

-- The number that the digits in front continue, and what is behind them.
abbrev pub digits : ℕ → List ℕ → ℕ × List ℕ
digits acc [] = (acc, [])
digits acc (c ∷ s) = if is_digit c then digits (acc * 10 + (c - b'0')) s else (acc, c ∷ s)

abbrev pub signed : Bool → ℕ × List ℕ → ℤ × List ℕ
signed minus (n, rest) = ((if minus then sub_ℕ 0 n else pos n), rest)

-- At least one digit.
abbrev pub number : Bool → List ℕ → Option (ℤ × List ℕ)
number minus [] = none
number minus (c ∷ s) = if is_digit c then some (signed minus (digits 0 (c ∷ s))) else none

abbrev pub with_sign : List ℕ → Option (ℤ × List ℕ)
with_sign [] = none
with_sign (c ∷ s) =
    if c == b'-' then number true s else if c == b'+' then number false s else number false (c ∷ s)

-- One %d.
abbrev pub scan_int : List ℕ → Option (ℤ × List ℕ)
scan_int s = with_sign (skip_spaces s)

-- The two variables after the call: a number that is not read leaves its variable alone.
abbrev pub second : ℤ → ℤ → Option (ℤ × List ℕ) → ℤ × ℤ
second a b none = (a, b)
second a b (some (v, rest)) = (a, v)

abbrev pub first : ℤ → ℤ → Option (ℤ × List ℕ) → ℤ × ℤ
first a b none = (a, b)
first a b (some (v, rest)) = second v b (scan_int rest)

abbrev pub scan_pair : ℤ → ℤ → List ℕ → ℤ × ℤ
scan_pair a b s = first a b (scan_int s)

abbrev pub magnitude : ℤ → ℕ
magnitude z = pos_part z + neg_part z

grow : (acc d k : ℕ) → d ≤ 9 → (acc * 10 + d + 1) * 10 ^ k ≤ (acc + 1) * 10 ^ suc k
grow acc d k h = omega (
  arith,
  mul-le-mul_right {m = acc * 10 + d + 1} {n = (acc + 1) * 10} (10 ^ k) (omega arith),
  ap (λ x. (acc + 1) * x) (pow-succ' 10 k) ∙ sym (mul_assoc (acc + 1) 10 (10 ^ k)),
)

digits-bound :
    (acc : ℕ) (s : List ℕ)
    → (k : ℕ) × (length (digits acc s).1 + k ≡ length s)
      × ((digits acc s).0 + 1 ≤ (acc + 1) * 10 ^ k)
digits-bound acc [] = (0, omega arith, omega arith)
digits-bound acc (c ∷ s) = elim (Bool-cases (is_digit c)) [
  | inl d ↦
      let (k, l, b) = digits-bound (acc * 10 + (c - b'0')) s in
      (suc k, ground (arith, l), ground (arith, b, grow acc (c - b'0') k))
  | inr d ↦ (0, ground arith, ground arith)
]

length-skip_spaces : (s : List ℕ) → length (skip_spaces s) ≤ length s
length-skip_spaces [] = omega arith
length-skip_spaces (c ∷ s) = ground (arith, length-skip_spaces s)

-- A number that is read takes `k` characters from the text at least, and its magnitude has `k` digits
-- at most.
abbrev pub IsRead : List ℕ → ℤ × List ℕ → Type 0
IsRead s (v, rest) = (k : ℕ) × (length rest + k ≤ length s) × (magnitude v + 1 ≤ 10 ^ k)

number-IsRead : (minus : Bool) (s : List ℕ) (r : ℤ × List ℕ) → number minus s ≡ some r → IsRead s r
number-IsRead minus [] r e = absurd (ground arith)
number-IsRead minus (c ∷ s) (v, rest) e =
    let (k, l, b) = digits-bound 0 (c ∷ s) in (k, ground (arith, l), ground (arith, b))

with_sign-IsRead : (s : List ℕ) (r : ℤ × List ℕ) → with_sign s ≡ some r → IsRead s r
with_sign-IsRead [] r e = absurd (ground arith)
with_sign-IsRead (c ∷ s) r e = elim (Bool-cases (c == b'-')) [
  | inl m ↦ let (k, l, b) = number-IsRead true s r (ground arith) in (k, omega (arith, l), b)
  | inr m ↦ elim (Bool-cases (c == b'+')) [
    | inl p ↦ let (k, l, b) = number-IsRead false s r (ground arith) in (k, omega (arith, l), b)
    | inr p ↦ number-IsRead false (c ∷ s) r (ground arith)
  ]
]

scan_int-IsRead : (s : List ℕ) (r : ℤ × List ℕ) → scan_int s ≡ some r → IsRead s r
scan_int-IsRead s r e =
    let (k, l, b) = with_sign-IsRead (skip_spaces s) r e in
    (k, omega (arith, l, length-skip_spaces s), b)

zero_add : (k : ℕ) → k ≡ 0 + k
zero_add k = omega arith

suc_add : (j k : ℕ) → suc (j + k) ≡ suc j + k
suc_add j k = omega arith

pow_add : (j k : ℕ) → 10 ^ j * 10 ^ k ≡ 10 ^ (j + k)
pow_add zero k = omega (arith, ap (λ x. 10 ^ x) (zero_add k))
pow_add (suc j) k =
    ap (λ x. x * 10 ^ k) (pow-succ' 10 j)
    ∙ mul_assoc 10 (10 ^ j) (10 ^ k)
    ∙ ap (λ x. 10 * x) (pow_add j k)
    ∙ sym (pow-succ' 10 (j + k))
    ∙ ap (λ x. 10 ^ x) (suc_add j k)

-- The magnitudes of two numbers that are read from a text of at most 9 bytes.
pub pair_bound :
    (s u v : List ℕ) (a b : ℤ)
    → length s ≤ 9
    → scan_int s ≡ some (a, u)
    → scan_int u ≡ some (b, v)
    → (magnitude a + 1) * (magnitude b + 1) ≤ 10 ^ 9
pair_bound s u v a b short e f =
    let (j, l, p) = scan_int-IsRead s (a, u) e in
    let (k, m, q) = scan_int-IsRead u (b, v) f in
    omega (
      arith,
      mul-le-mul p q,
      pow_add j k,
      pow-le-pow_right {n = 10} (omega arith) {i = j + k} {j = 9} (omega (arith, l, m)),
    )

pub scan_pair-both :
    (x y : ℤ) (s u v : List ℕ) (a b : ℤ)
    → scan_int s ≡ some (a, u)
    → scan_int u ≡ some (b, v)
    → scan_pair x y s ≡ (a, b)
scan_pair-both x y s u v a b e f = ap (first x y) e ∙ ap (second a y) f

-- Where only the first number is there, the second variable keeps its value.
pub scan_pair-one :
    (x y : ℤ) (s u : List ℕ) (a : ℤ)
    → scan_int s ≡ some (a, u)
    → scan_int u ≡ none
    → scan_pair x y s ≡ (a, y)
scan_pair-one x y s u a e f = ap (first x y) e ∙ ap (second a y) f
