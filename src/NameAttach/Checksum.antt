-- ===== src/NameAttach/Checksum.antt =====
-- `calculate_checksum` of src/21.lab_name_attach_server.c.
use qnx_box.Prelude.{
  ℕ, suc, ◌+◌, ◌-◌, ◌*◌, ◌≤◌, ◌≡◌, refl, ◌∙◌, true, false, none, some, List, [], ◌∷◌, arith, ltb,
  if◌then◌else◌, length, ℤ, pos, negsuc, ◌+ℤ◌, ◌≤ℤ◌, pos_part, neg_part, sub_ℕ, sub_ℕ-add,
}
use qnx_box.CString.{c_string, is_terminated}
use qnx_box.NameAttach.{char_value, add_chars, calculate_checksum}

-- The sum of the characters that are not negative, and that of the others without their sign.
abbrev pub ascii_sum : List ℕ → ℕ
ascii_sum [] = 0
ascii_sum (c ∷ s) = (if ltb c 128 then c else 0) + ascii_sum s

abbrev pub negative_sum : List ℕ → ℕ
negative_sum [] = 0
negative_sum (c ∷ s) = (if ltb c 128 then 0 else suc (255 - c)) + negative_sum s

add_chars_lem :
    (a b : ℕ) (text : List ℕ)
    → is_terminated text ≡ true
    → add_chars (sub_ℕ a b) text
      ≡ some (sub_ℕ (a + ascii_sum (c_string text)) (b + negative_sum (c_string text)))
unfolding add_chars
add_chars_lem a b [] e = absurd (ground arith)
add_chars_lem a b (c ∷ text) e = ground (
  arith,
  sub_ℕ-add a b (char_value c),
  add_chars_lem (a + pos_part (char_value c)) (b + neg_part (char_value c)) text,
)

-- The checksum of a terminated array is the sum of the characters of its string that are not
-- negative, less the absolute values of the others.
pub calculate_checksum_lem :
    (text : List ℕ)
    → is_terminated text ≡ true
    → calculate_checksum text
      ≡ some (sub_ℕ (ascii_sum (c_string text)) (negative_sum (c_string text)))
unfolding calculate_checksum
calculate_checksum_lem text e = add_chars_lem 0 0 text e ∙ ground arith

add_chars-overruns :
    (sum : ℤ) (text : List ℕ) → is_terminated text ≡ false → add_chars sum text ≡ none
unfolding add_chars
add_chars-overruns sum [] e = refl
add_chars-overruns sum (c ∷ text) e = ground (arith, add_chars-overruns (sum +ℤ char_value c) text)

-- Without a NUL in the array the loop reads behind its end.
pub calculate_checksum-overruns :
    (text : List ℕ) → is_terminated text ≡ false → calculate_checksum text ≡ none
unfolding calculate_checksum
calculate_checksum-overruns text e = add_chars-overruns (pos 0) text e

ascii_sum-le : (s : List ℕ) → ascii_sum s ≤ 127 * length s
ascii_sum-le [] = omega arith
ascii_sum-le (c ∷ s) = ground (arith, ascii_sum-le s)

negative_sum-le : (s : List ℕ) → negative_sum s ≤ 128 * length s
negative_sum-le [] = omega arith
negative_sum-le (c ∷ s) = ground (arith, negative_sum-le s)

length-c_string : (text : List ℕ) → length (c_string text) ≤ length text
length-c_string [] = omega arith
length-c_string (c ∷ text) = ground (arith, length-c_string text)

-- On a terminated array of at most 256 bytes the loop returns, with a result between -32768 and
-- 32767.
pub calculate_checksum-bounds :
    (text : List ℕ)
    → is_terminated text ≡ true
    → length text ≤ 256
    → (sum : ℤ) × (calculate_checksum text ≡ some sum) × (negsuc 32767 ≤ℤ sum) × (sum ≤ℤ pos 32767)
calculate_checksum-bounds text e short = (
  _,
  calculate_checksum_lem text e,
  ground
      (arith, ascii_sum-le (c_string text), negative_sum-le (c_string text), length-c_string text),
  ground
      (arith, ascii_sum-le (c_string text), negative_sum-le (c_string text), length-c_string text),
)
