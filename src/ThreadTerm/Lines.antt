-- ===== src/ThreadTerm/Lines.antt =====
-- What is said of the lines that src/08.lab_thread_term.c prints.
use qnx_box.Prelude.{
  ℕ, suc, ◌≡◌, refl, Bool, true, false, not, ◌&&◌, ◌||◌, List, [], ◌∷◌, ◌++◌, if◌then◌else◌, arith,
}
use qnx_box.ThreadTerm.{
  Line, joining, killing, completed, cancel_started, cancel_running, exit_started, exit_calling,
}

abbrev pub is_joining : Line → Bool
is_joining joining = true
is_joining _ = false

abbrev pub is_killing : Line → Bool
is_killing killing = true
is_killing _ = false

abbrev pub is_completed : Line → Bool
is_completed completed = true
is_completed _ = false

-- A line of `thread_func_cancel`.
abbrev pub by_cancel : Line → Bool
by_cancel cancel_started = true
by_cancel cancel_running = true
by_cancel _ = false

-- A line of `thread_func_exit`.
abbrev pub by_exit : Line → Bool
by_exit exit_started = true
by_exit exit_calling = true
by_exit _ = false

abbrev pub is_calling : Line → Bool
is_calling exit_calling = true
is_calling _ = false

abbrev pub has : (Line → Bool) → List Line → Bool
has p [] = false
has p (l ∷ ls) = p l || has p ls

abbrev pub count : (Line → Bool) → List Line → ℕ
count p [] = 0
count p (l ∷ ls) = if p l then suc (count p ls) else count p ls

-- Behind a line that is a mark there is none of the lines `p`.
abbrev pub quiet_after : (mark p : Line → Bool) → List Line → Bool
quiet_after mark p [] = true
quiet_after mark p (l ∷ ls) = (not (mark l) || not (has p ls)) && quiet_after mark p ls

has-snoc : (p : Line → Bool) (ls : List Line) (l : Line) → has p (ls ++ l ∷ []) ≡ (has p ls || p l)
has-snoc p [] l = ground arith
has-snoc p (m ∷ ls) l = ground (arith, has-snoc p ls l)

count-snoc :
    (p : Line → Bool) (ls : List Line) (l : Line)
    → count p (ls ++ l ∷ []) ≡ (if p l then suc (count p ls) else count p ls)
count-snoc p [] l = refl
count-snoc p (m ∷ ls) l = ground (arith, count-snoc p ls l)

quiet_after-snoc :
    (mark p : Line → Bool) (ls : List Line) (l : Line)
    → quiet_after mark p (ls ++ l ∷ [])
      ≡ (quiet_after mark p ls && (not (has mark ls) || not (p l)))
quiet_after-snoc mark p [] l = ground arith
quiet_after-snoc mark p (m ∷ ls) l = ground (arith, quiet_after-snoc mark p ls l, has-snoc p ls l)

-- What is counted of the lines.
pub record Facts : Type 0 where
  pub joins : Bool
  pub kills : Bool
  pub completes : Bool
  pub cancel_quiet : Bool
  pub exit_quiet : Bool
  pub calls : ℕ

unfoldable pub facts : List Line → Facts
facts ls = record {
  joins = has is_joining ls;
  kills = has is_killing ls;
  completes = has is_completed ls;
  cancel_quiet = quiet_after is_joining by_cancel ls;
  exit_quiet = quiet_after is_killing by_exit ls;
  calls = count is_calling ls;
}

abbrev pub add : Line → Facts → Facts
add l f = record {
  joins = f.joins || is_joining l;
  kills = f.kills || is_killing l;
  completes = f.completes || is_completed l;
  cancel_quiet = f.cancel_quiet && (not f.joins || not (by_cancel l));
  exit_quiet = f.exit_quiet && (not f.kills || not (by_exit l));
  calls = if is_calling l then suc f.calls else f.calls;
}

pub facts-snoc : (ls : List Line) (l : Line) → facts (ls ++ l ∷ []) ≡ add l (facts ls)
unfolding facts
facts-snoc ls l = rw (
  has-snoc is_joining ls l,
  has-snoc is_killing ls l,
  has-snoc is_completed ls l,
  quiet_after-snoc is_joining by_cancel ls l,
  quiet_after-snoc is_killing by_exit ls l,
  count-snoc is_calling ls l,
)
