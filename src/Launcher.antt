-- ===== src/Launcher.antt =====
-- The launcher: src/main.c and the table of src/include/qnx_lab.h. An entry point is its index in the
-- table. Memory never runs out.
pub mod Call
pub mod Split
pub mod Words
mod Tests
use qnx_box.Prelude.{
  ℕ, zero, suc, ◌+◌, ◌*◌, Bool, true, false, ◌&&◌, ◌||◌, Option, none, some, List, [], ◌∷◌, ◌++◌,
  leb, ◌==◌, if◌then◌else◌, length, is_some,
}
use qnx_box.CString.{codes, c_string, is_terminated, strcmp_eq, overwrite, fgets}

-- The names of `qnx_labs`.
abbrev pub qnx_labs : List (List ℕ)
qnx_labs =
    codes "hello"
    ∷ codes "fork"
    ∷ codes "exec"
    ∷ codes "spawn"
    ∷ codes "zombie"
    ∷ codes "pulse"
    ∷ codes "thread"
    ∷ codes "thread_term"
    ∷ codes "assignment_1"
    ∷ codes "mutex"
    ∷ codes "assignment_2"
    ∷ codes "orange_problem"
    ∷ codes "condvar"
    ∷ codes "atomic"
    ∷ codes "hw_handler_condvar"
    ∷ codes "produce_consume"
    ∷ codes "state_machine"
    ∷ codes "message_passing_client"
    ∷ codes "message_passing_server"
    ∷ codes "assignment_3_client"
    ∷ codes "assignment_3_server"
    ∷ codes "pulse_client"
    ∷ codes "pulse_server"
    ∷ codes "name_attach_client"
    ∷ codes "name_attach_server"
    ∷ codes "events_client"
    ∷ codes "events_server"
    ∷ codes "shm_posix_producer"
    ∷ codes "shm_posix_consumer"
    ∷ codes "interrupt_handler"
    ∷ codes "shm_qnx_server"
    ∷ codes "shm_qnx_client"
    ∷ codes "timer"
    ∷ codes "orange_problem_2_client"
    ∷ codes "orange_problem_2_server"
    ∷ codes "process_timer"
    ∷ codes "time"
    ∷ codes "resource_manager"
    ∷ []

-- The delimiters of strtok
abbrev pub is_delimiter : ℕ → Bool
is_delimiter c = (c == b' ') || (c == b'\t') || (c == b'\n')

abbrev pub skip_delimiters : List ℕ → List ℕ
skip_delimiters [] = []
skip_delimiters (c ∷ s) = if is_delimiter c then skip_delimiters s else c ∷ s

-- A token and what is behind its delimiter.
abbrev pub token : List ℕ → List ℕ
token [] = []
token (c ∷ s) = if is_delimiter c then [] else c ∷ token s

abbrev pub after_token : List ℕ → List ℕ
after_token [] = []
after_token (c ∷ s) = if is_delimiter c then s else after_token s

abbrev pub first_token : List ℕ → Option (List ℕ × List ℕ)
first_token [] = none
first_token (c ∷ s) = some (token (c ∷ s), after_token (c ∷ s))

-- The next token with the place where the next call goes on; `none` is NULL.
abbrev pub strtok : List ℕ → Option (List ℕ × List ℕ)
strtok s = first_token (skip_delimiters s)

abbrev pub put_token : List ℕ → Option (List (List ℕ)) → Option (List (List ℕ))
put_token t none = none
put_token t (some ts) = some (t ∷ ts)

-- The `while` loop: `none` is out of fuel.
unfoldable pub split_by_space : ℕ → List ℕ → Option (List (List ℕ))
split_by_space zero s = none
split_by_space (suc k) s = elim (strtok s) [
  | none ↦ some []
  | some (t, rest) ↦ put_token t (split_by_space k rest)
]

-- The array after `arg_line[strcspn(arg_line, "\n")] = 0`.
abbrev pub chop : List ℕ → List ℕ
chop [] = []
chop (c ∷ s) = if c == 0 then 0 ∷ s else if c == b'\n' then 0 ∷ s else c ∷ chop s

-- The array `s` after the call: `t` and what was in it, if there is room; `none` is a write behind it.
unfoldable pub prepend : List ℕ → List ℕ → Option (List ℕ)
prepend s t =
    if leb (length t + length (c_string s) + 1) (length s)
    then some (overwrite (t ++ c_string s ++ 0 ∷ []) s)
    else none

abbrev pub split_line : Option (List ℕ) → Option (List (List ℕ))
split_line none = none
split_line (some arg_line) = split_by_space (length arg_line + 1) (c_string arg_line)

abbrev pub prepend_more : Option (List ℕ) → List ℕ → Option (List ℕ)
prepend_more none t = none
prepend_more (some s) t = prepend s t

-- The branch for a call without arguments: the array, what stdin holds, and `argv[0]`.
unfoldable pub read_args : List ℕ → List ℕ → List ℕ → Option (List (List ℕ))
read_args arg_line input argv0 =
    split_line (prepend_more (prepend (chop (fgets input arg_line)) (codes " ")) argv0)

-- The branch for a call with arguments: `block` bytes are allocated, and the pointers, of 8 bytes
-- each, and the NULL behind them are stored from the index `i` on; `none` is a write behind the block.
unfoldable pub store_args : ℕ → ℕ → List (List ℕ) → Option (List (List ℕ))
store_args block i [] = if leb (8 * (i + 1)) block then some [] else none
store_args block i (a ∷ argv) =
    if leb (8 * (i + 1)) block then put_token a (store_args block (i + 1) argv) else none

-- `malloc(sizeof(char*) * argc + 1)`
unfoldable pub copy_args : List (List ℕ) → Option (List (List ℕ))
copy_args argv = store_args (8 * length argv + 1) 0 argv

-- What `main` does with the arguments.
pub data Outcome : Type 0 where
  usage : Outcome
  help : Outcome
  call : (index : ℕ) → (args : List (List ℕ)) → Outcome
  unrecognized : (name : List ℕ) → Outcome

-- The loop over the table, from index `i` on.
unfoldable pub find_lab : List (List ℕ) → ℕ → List ℕ → Option ℕ
find_lab [] i name = none
find_lab (lab ∷ labs) i name =
    let rest = find_lab labs (i + 1) name in if strcmp_eq name lab then some i else rest

abbrev pub call_lab : List (List ℕ) → List ℕ → Option ℕ → Outcome
call_lab args name none = unrecognized name
call_lab args name (some i) = call i args

unfoldable pub dispatch : List (List ℕ) → Outcome
dispatch [] = usage
dispatch (program ∷ []) = usage
dispatch (program ∷ name ∷ args) =
    if strcmp_eq name (codes "help")
    then help
    else call_lab (program ∷ name ∷ args) name (find_lab qnx_labs 0 name)
