-- ===== src/Time.antt =====
-- The loop of src/29.lab_time.c. The input is the list of the bytes to come on stdin.
pub mod AtEnd
pub mod Commands
mod Tests
use qnx_box.Prelude.{
  ℕ, ◌-◌, Bool, true, false, Option, none, some, List, [], ◌∷◌, if◌then◌else◌, length, ℤ, pos,
  negsuc, ltb, ◌^◌, ◌&&◌,
}
use qnx_box.CString.{codes, c_string, strcmp_eq, fgets, after_line}
use qnx_box.Scan.{scan_pair}

-- What a round finds: whether the calls of the clock succeed, and what was in the memory of the variables
-- `line` and `ts`, which are made anew.
pub record Os : Type 0 where
  pub real_ok : Bool
  pub monotonic_ok : Bool
  pub set_ok : Bool
  pub line : List ℕ
  pub tv_sec : ℤ
  pub tv_nsec : ℤ

-- What a round does: the two clocks, with the failures; a call of clock_settime; nothing.
pub data Output : Type 0 where
  shown : (real_ok monotonic_ok : Bool) → Output
  settime : (tv_sec tv_nsec : ℤ) (ok : Bool) → Output
  undefined_numbers : Output  -- sscanf of a number that does not fit into a long
  nothing : Output

-- `command` and the rest of the input.
pub record State : Type 0 where
  pub command : List ℕ
  pub input : List ℕ

-- The values of a long, of 64 bits.
abbrev pub fits_long : ℤ → Bool
fits_long (pos n) = ltb n (2 ^ 63)
fits_long (negsuc n) = ltb n (2 ^ 63)

abbrev pub settime_of : Os → ℤ × ℤ → Output
settime_of os (tv_sec, tv_nsec) =
    if fits_long tv_sec && fits_long tv_nsec
    then settime tv_sec tv_nsec os.set_ok
    else undefined_numbers

-- `set`: the second fgets, sscanf and clock_settime.
abbrev pub set_time : Os → State → Output × State
set_time os s = (
  settime_of os (scan_pair os.tv_sec os.tv_nsec (c_string (fgets s.input os.line))),
  record s { input = after_line (length os.line - 1) s.input },
)

-- The `if` on the command; `none` is the break.
abbrev pub run_command : Os → State → Option (Output × State)
run_command os s =
    if strcmp_eq s.command (codes "exit\n")
    then none
    else if strcmp_eq s.command (codes "get\n")
    then some (shown os.real_ok os.monotonic_ok, s)
    else if strcmp_eq s.command (codes "set\n")
    then some (set_time os s)
    else some (nothing, s)

abbrev pub read_command : State → State
read_command s = record {
  command = fgets s.input s.command;
  input = after_line (length s.command - 1) s.input;
}

-- A round of `while (1)`.
unfoldable pub round : Os → State → Option (Output × State)
round os s = run_command os (read_command s)

-- The first rounds, and whether the loop was left.
pub record Rounds : Type 0 where
  pub outputs : List Output
  pub is_left : Bool

unfoldable pub loop : State → List Os → Rounds
loop s [] = record { outputs = []; is_left = false }
loop s (os ∷ later) = elim (round os s) [
  | none ↦ record { outputs = []; is_left = true }
  | some (o, t) ↦ let rest = loop t later in record rest { outputs = o ∷ rest.outputs }
]
