-- ===== src/Time/Commands.antt =====
-- How the loop of src/29.lab_time.c goes on, and how it does not.
use mathlib.Core.List.{append_assoc}
use mathlib.Core.Path.{subst}
use qnx_box.Prelude.{
  sym, ℕ, ◌-◌, ◌<◌, ◌≡◌, ◌≢◌, refl, ap, ◌∙◌, true, false, none, some, List, [], ◌∷◌, ◌++◌, length,
  arith, All,
}
use qnx_box.CString.{
  codes, c_string, same_bytes, fgets, after_line, IsText, c_string-fgets, length-fgets, line-append,
}
use qnx_box.Scan.{scan_pair}
use qnx_box.Time.{
  Os, Output, shown, settime_of, nothing, State, set_time, run_command, read_command, round, loop,
}

-- What is typed for a round: get, set with a line, or something else.
pub data Typed : Type 0 where
  get : Typed
  set : List ℕ → Typed
  other : List ℕ → Typed

abbrev pub bytes : Typed → List ℕ
bytes get = codes "get\n"
bytes (set l) = codes "set\n" ++ l ++ b'\n' ∷ []
bytes (other l) = l ++ b'\n' ∷ []

-- A line that fits into an array of 100 bytes, without NULs.
abbrev pub IsLine : List ℕ → Type 0
IsLine l = IsText l × All (λ c. c ≢ b'\n') l × (length l < 99)

abbrev pub IsTyped : Typed → Type 0
IsTyped get = Unit
IsTyped (set l) = IsLine l
IsTyped (other l) =
    IsLine l
    × (same_bytes (l ++ b'\n' ∷ []) (codes "exit\n") ≡ false)
    × (same_bytes (l ++ b'\n' ∷ []) (codes "get\n") ≡ false)
    × (same_bytes (l ++ b'\n' ∷ []) (codes "set\n") ≡ false)

abbrev pub answer : Os → Typed → Output
answer os get = shown os.real_ok os.monotonic_ok
answer os (set l) = settime_of os (scan_pair os.tv_sec os.tv_nsec (l ++ b'\n' ∷ []))
answer os (other l) = nothing

abbrev read : List ℕ → List ℕ → List ℕ → State
read l rest buf = read_command (record { command = buf; input = l ++ b'\n' ∷ rest })

-- A command that fits is read whole, and the rest is left.
read_lem :
    (l rest buf : List ℕ)
    → IsLine l
    → length buf ≡ 100
    → (c_string (read l rest buf).command ≡ l ++ b'\n' ∷ [])
      × ((read l rest buf).input ≡ rest)
      × (length (read l rest buf).command ≡ 100)
read_lem l rest buf (t, h, short) size = (
  c_string-fgets l rest buf t h (omega arith),
  (line-append (length buf - 1) l rest h (omega arith)).1,
  length-fgets (l ++ b'\n' ∷ rest) buf ∙ size,
)

run-other :
    (os : Os) (s : State) (l : List ℕ)
    → c_string s.command ≡ l
    → same_bytes l (codes "exit\n") ≡ false
    → same_bytes l (codes "get\n") ≡ false
    → same_bytes l (codes "set\n") ≡ false
    → run_command os s ≡ some (nothing, s)
run-other os s l e x g t = rw (run_command, e, x, g, t) refl

pub run-get :
    (os : Os) (s : State)
    → c_string s.command ≡ codes "get\n"
    → run_command os s ≡ some (shown os.real_ok os.monotonic_ok, s)
run-get os s e = rw (run_command, e) refl

run-set :
    (os : Os) (s : State)
    → c_string s.command ≡ codes "set\n"
    → run_command os s ≡ some (set_time os s)
run-set os s e = rw (run_command, e) refl

run-exit : (os : Os) (s : State) → c_string s.command ≡ codes "exit\n" → run_command os s ≡ none
run-exit os s e = rw (run_command, e) refl

-- The state behind a round, and what the round does.
record Goes (os : Os) (s : State) (o : Output) (rest : List ℕ) : Type 0 where
  then_at : State
  result : round os s ≡ some (o, then_at)
  left : then_at.input ≡ rest
  size : length then_at.command ≡ 100

set_round :
    (os : Os) (s : State) (l rest : List ℕ)
    → IsLine l
    → length os.line ≡ 100
    → s.input ≡ l ++ b'\n' ∷ rest
    → ((set_time os s).0 ≡ answer os (set l)) × ((set_time os s).1.input ≡ rest)
set_round os s l rest (t, h, short) size at =
    let stored : c_string (fgets s.input os.line) ≡ l ++ b'\n' ∷ [] =
      ap (λ i. c_string (fgets i os.line)) at ∙ c_string-fgets l rest os.line t h (omega arith) in
    (
      ap (λ c. settime_of os (scan_pair os.tv_sec os.tv_nsec c)) stored,
      ap (after_line (length os.line - 1)) at
          ∙ (line-append (length os.line - 1) l rest h (omega arith)).1,
    )

get-IsLine : IsLine (codes "get")
get-IsLine = ground arith

set-IsLine : IsLine (codes "set")
set-IsLine = ground arith

exit-IsLine : IsLine (codes "exit")
exit-IsLine = ground arith

round-Goes :
    (os : Os) (k : Typed) (rest buf : List ℕ)
    → IsTyped k
    → length os.line ≡ 100
    → length buf ≡ 100
    → Goes os (record { command = buf; input = bytes k ++ rest }) (answer os k) rest
unfolding round
round-Goes os get rest buf typed line_size size =
    let (e, i, n) = read_lem (codes "get") rest buf get-IsLine size in
    record { then_at = read (codes "get") rest buf; result = run-get os _ e; left = i; size = n }
round-Goes os (set l) rest buf typed line_size size =
    let more = (l ++ b'\n' ∷ []) ++ rest in
    let s = read (codes "set") more buf in
    let (e, i, n) = read_lem (codes "set") more buf set-IsLine size in
    let (out, left) =
      set_round os s l rest typed line_size (i ∙ append_assoc l (b'\n' ∷ []) rest) in
    record {
      then_at = (set_time os s).1;
      result = run-set os s e ∙ ap (λ o. some (o, (set_time os s).1)) out;
      left = left;
      size = n;
    }
round-Goes os (other l) rest buf (is_line, x, g, t) line_size size =
    let (e, i, n) = read_lem l rest buf is_line size in
    subst (λ input. Goes os (record { command = buf; input = input }) nothing rest)
      (sym (append_assoc l (b'\n' ∷ []) rest))
      (record { then_at = read l rest buf; result = run-other os _ _ e x g t; left = i; size = n })

abbrev pub all_bytes : List Typed → List ℕ
all_bytes [] = []
all_bytes (k ∷ ks) = bytes k ++ all_bytes ks

abbrev pub answers : List Os → List Typed → List Output
answers (os ∷ later) (k ∷ ks) = answer os k ∷ answers later ks
answers _ _ = []

loop-left :
    (os : Os) (later : List Os) (s : State)
    → round os s ≡ none
    → loop s (os ∷ later) ≡ record { outputs = []; is_left = true }
unfolding loop
loop-left os later s e = rw (loop, e) refl

pub loop-next :
    (os : Os) (later : List Os) (s t : State) (o : Output)
    → round os s ≡ some (o, t)
    → loop s (os ∷ later)
      ≡ record { outputs = o ∷ (loop t later).outputs; is_left = (loop t later).is_left }
unfolding loop
loop-next os later s t o e = rw (loop, e) refl

loop-exit :
    (os : Os) (later : List Os) (rest buf : List ℕ)
    → length buf ≡ 100
    → loop (record { command = buf; input = codes "exit\n" ++ rest }) (os ∷ later)
      ≡ record { outputs = []; is_left = true }
unfolding round
loop-exit os later rest buf size = loop-left os later _ (
    run-exit os (read (codes "exit") rest buf)
      (read_lem (codes "exit") rest buf exit-IsLine size).0)

-- The commands that are typed in front of an exit are done one after the other, each in its round, and
-- the loop is left at the exit: get shows both clocks, set sets the clock to the numbers of its line, of
-- which one that is not there is what was in memory, unless one does not fit into a long; and any other
-- line does nothing. The lines fit into the arrays of 100 bytes, and there are no NULs in them.
pub commands_done :
    (before : List Os) (os : Os) (later : List Os) (ks : List Typed) (rest buf : List ℕ)
    → length before ≡ length ks
    → All (λ o. length o.line ≡ 100) before
    → All IsTyped ks
    → length buf ≡ 100
    → loop
        (record { command = buf; input = all_bytes ks ++ (codes "exit\n" ++ rest) })
        (before ++ os ∷ later)
      ≡ record { outputs = answers before ks; is_left = true }
commands_done [] os later [] rest buf same lines typed size = loop-exit os later rest buf size
commands_done [] os later (k ∷ ks) rest buf same lines typed size = absurd (omega arith)
commands_done (o ∷ before) os later [] rest buf same lines typed size = absurd (omega arith)
commands_done (o ∷ before) os later (k ∷ ks) rest buf same (line, lines) (typed, more) size =
    let step = round-Goes o k (all_bytes ks ++ (codes "exit\n" ++ rest)) buf typed line size in
    let t = step.then_at in
    let rest_done =
      commands_done before os later ks rest t.command (omega arith) lines more step.size in
    let there : loop t (before ++ os ∷ later)
        ≡ record { outputs = answers before ks; is_left = true } =
      ap (λ i. loop (record { command = t.command; input = i }) (before ++ os ∷ later)) step.left
      ∙ rest_done in
    ap (λ i. loop (record { command = buf; input = i }) (o ∷ before ++ os ∷ later))
      (append_assoc (bytes k) (all_bytes ks) (codes "exit\n" ++ rest))
    ∙ loop-next o (before ++ os ∷ later) _ t (answer o k) step.result
    ∙ ap (λ r. record { outputs = answer o k ∷ r.outputs; is_left = r.is_left }) there
