-- ===== src/MessagePassing/Convert.antt =====
-- `string_to_upper` and `string_to_lower` of src/18.lab_message_passing_server.c.
use qnx_box.Prelude.{
  ℕ, ◌+◌, ◌≤◌, ◌<◌, ◌≡◌, refl, false, none, some, List, [], ◌∷◌, ◌++◌, map, arith, length, All,
}
use qnx_box.CString.{IsText, is_terminated, overwrite, toupper, tolower}
use qnx_box.MessagePassing.{max_string_len, convert, string_to_upper, string_to_lower}

-- The characters that are not negative as a char.
abbrev pub IsAscii : List ℕ → Type 0
IsAscii = All (λ c. c < 128)

convert-text :
    (f : ℕ → ℕ) (i : ℕ) (dest s rest : List ℕ)
    → IsText s
    → IsAscii s
    → i + length s ≤ max_string_len
    → length s < length dest
    → convert f i dest (s ++ 0 ∷ rest) ≡ some (overwrite (map f s ++ 0 ∷ []) dest)
unfolding convert
convert-text f i [] s rest t ascii fits room = absurd (omega arith)
convert-text f i (d ∷ dest) [] rest t ascii fits room = refl
convert-text f i (d ∷ dest) (c ∷ s) rest (ne, t) (small, ascii) fits room =
    ground (arith, convert-text f (i + 1) dest s rest t ascii)

convert-unterminated :
    (f : ℕ → ℕ) (i : ℕ) (dest src : List ℕ)
    → is_terminated src ≡ false
    → i + length src ≤ max_string_len
    → convert f i dest src ≡ none
unfolding convert
convert-unterminated f i dest [] e fits = refl
convert-unterminated f i [] (c ∷ src) e fits = refl
convert-unterminated f i (d ∷ dest) (c ∷ src) e fits =
    ground (arith, convert-unterminated f (i + 1) dest src)

module _ (dest s rest : List ℕ) (t : IsText s) (ascii : IsAscii s)
    (fits : length s < max_string_len) (room : length s < length dest) where
  -- On a string of ASCII characters that ends inside the array, of less than 256 characters, both functions write the
  -- characters in upper or lower case and a NUL, and leave the rest of `dest` alone.
  pub string_to_case :
      (string_to_upper dest (s ++ 0 ∷ rest) ≡ some (overwrite (map toupper s ++ 0 ∷ []) dest))
      × (string_to_lower dest (s ++ 0 ∷ rest) ≡ some (overwrite (map tolower s ++ 0 ∷ []) dest))
  unfolding string_to_upper string_to_lower
  string_to_case = (
    convert-text toupper 0 dest s rest t ascii (omega arith) room,
    convert-text tolower 0 dest s rest t ascii (omega arith) room,
  )

-- On a full array of 256 bytes without a NUL both functions read behind it: the loop reads
-- `src[256]` before it compares the index.
pub unterminated_overruns :
    (dest src : List ℕ)
    → length src ≡ max_string_len
    → is_terminated src ≡ false
    → (string_to_upper dest src ≡ none) × (string_to_lower dest src ≡ none)
unfolding string_to_upper string_to_lower
unterminated_overruns dest src e u = (
  convert-unterminated toupper 0 dest src u (omega arith),
  convert-unterminated tolower 0 dest src u (omega arith),
)
