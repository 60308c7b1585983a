-- ===== src/Launcher/Tests.antt =====
-- The theorems on the launcher of src/main.c at concrete inputs.
use qnx_box.Prelude.{ℕ, ◌≡◌, refl, some, List, [], ◌∷◌, ◌++◌, arith, map}
use qnx_box.CString.{codes, zeros}
use qnx_box.Launcher.{read_args}
use qnx_box.Launcher.Split.{read_args-join, IsArgument, IsOneLine, argument-bytes}
use qnx_box.Launcher.Words.{words, read_args-words}

program-IsArgument : IsArgument (codes "main")
program-IsArgument = (argument-bytes (codes "main") refl, omega arith)

mutex-IsArgument : IsArgument (codes "mutex")
mutex-IsArgument = (argument-bytes (codes "mutex") refl, omega arith)

sync-IsArgument : IsArgument (codes "sync")
sync-IsArgument = (argument-bytes (codes "sync") refl, omega arith)

read_args-join_example :
    read_args (zeros 256) (codes "mutex sync" ++ b'\n' ∷ codes "more") (codes "main")
    ≡ some (codes "main" ∷ codes "mutex" ∷ codes "sync" ∷ [])
read_args-join_example =
    read_args-join (zeros 256) (codes "more") (codes "main") program-IsArgument refl (codes "mutex")
      (codes "sync" ∷ []) mutex-IsArgument (sync-IsArgument, tt) (omega arith)

abbrev long_line : List ℕ
long_line = map (λ c. b'a') (zeros 252)

-- Spaces and a tab in many places.
abbrev spaced : List ℕ
spaced = codes "  mutex " ++ 9 ∷ codes " sync "

two_arguments :
    words (codes "main" ++ b' ' ∷ spaced) ≡ codes "main" ∷ codes "mutex" ∷ codes "sync" ∷ []
unfolding words
two_arguments = refl

spaced-IsOneLine : IsOneLine spaced
spaced-IsOneLine = (ground arith, ground arith)

read_args-words_example :
    read_args (zeros 256) (spaced ++ b'\n' ∷ codes "more") (codes "main")
    ≡ some (words (codes "main" ++ b' ' ∷ spaced))
read_args-words_example =
    read_args-words (zeros 256) (codes "more") (codes "main") spaced refl
      (ground arith, ground arith) spaced-IsOneLine (omega arith)
