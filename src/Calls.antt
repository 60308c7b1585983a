-- ===== src/Calls.antt =====
-- A row of calls that return an error number: what src/10.lab_mutex.c, src/11.lab_assignment_2.c and
-- src/12.orange_problem.c do in their main threads, where the result of a call is tested before the next
-- step.
use mathlib.Core.List.{append_assoc}
use mathlib.Core.Path.{subst}
use qnx_box.Prelude.{
  not, ℕ, ◌≡◌, refl, ap, sym, ◌∙◌, ◌≢◌, inl, inr, Bool, true, false, ◌&&◌, List, [], ◌∷◌, ◌++◌,
  ◌==◌, if◌then◌else◌, arith, Bool-cases,
}

-- A step of the main thread, with calls `C` and other things to do `A`.
pub data Item (C A : Type 0) : Type 0 where
  act : A → Item C A
  test : C → Item C A  -- `if (ret != 0) { fprintf(stderr, ...); exit(EXIT_FAILURE); }`
  warn : C → Item C A  -- `if (ret != 0) { fprintf(stderr, ...); }`

pub data Event (C A : Type 0) : Type 0 where
  acted : A → Event C A
  called : C → Event C A
  failed : C → (ret : ℕ) → Event C A  -- the line on stderr

-- What was done, and the status of the exit or of the return.
pub record Outcome (C A : Type 0) : Type 0 where
  pub events : List (Event C A)
  pub status : ℕ

module _ {C A : Type 0} (ret : C → ℕ) where
  abbrev pub after : List (Event C A) → Outcome C A → Outcome C A
  after es o = record o { events = es ++ o.events }

  unfoldable pub run : List (Item C A) → Outcome C A
  run [] = record { events = []; status = 0 }
  run (act a ∷ items) = after (acted a ∷ []) (run items)
  run (test c ∷ items) =
      let rest = run items in
      after (called c ∷ [])
        (if ret c == 0 then rest else record { events = failed c (ret c) ∷ []; status = 1 })
  run (warn c ∷ items) =
      let rest = run items in
      after (called c ∷ []) (if ret c == 0 then rest else after (failed c (ret c) ∷ []) rest)

  -- What an item does when it does not end the process.
  abbrev pub events_of : Item C A → List (Event C A)
  events_of (act a) = acted a ∷ []
  events_of (test c) = called c ∷ []
  events_of (warn c) = if ret c == 0 then called c ∷ [] else called c ∷ failed c (ret c) ∷ []

  abbrev pub all_events : List (Item C A) → List (Event C A)
  all_events [] = []
  all_events (i ∷ items) = events_of i ++ all_events items

  -- The process goes on behind the item.
  abbrev pub is_passed : Item C A → Bool
  is_passed (act a) = true
  is_passed (test c) = ret c == 0
  is_passed (warn c) = true

  abbrev pub all_passed : List (Item C A) → Bool
  all_passed [] = true
  all_passed (i ∷ items) = is_passed i && all_passed items

  -- All items are done in order; or those in front of the first tested call that fails, that call and its
  -- message, and nothing behind it.
  pub data Ends (items : List (Item C A)) : Outcome C A → Type 0 where
    returned :
        all_passed items ≡ true → Ends items (record { events = all_events items; status = 0 })
    exited :
        (before behind : List (Item C A)) (c : C)
        → items ≡ before ++ test c ∷ behind
        → all_passed before ≡ true
        → ret c ≢ 0
        → Ends items
            (record { events = all_events before ++ called c ∷ failed c (ret c) ∷ []; status = 1 })

  Ends-cons :
      {items : List (Item C A)} {o : Outcome C A} (i : Item C A)
      → is_passed i ≡ true
      → Ends items o
      → Ends (i ∷ items) (after (events_of i) o)
  Ends-cons i p (returned q) = returned (rw p q)
  Ends-cons {items} i p (exited before behind c e q n) =
      subst (λ es. Ends (i ∷ items) (record { events = es; status = 1 }))
        (append_assoc (events_of i) (all_events before) (called c ∷ failed c (ret c) ∷ []))
        (exited (i ∷ before) behind c (ap (λ l. i ∷ l) e) (rw p q) n)

  test-Ends :
      (c : C) (items : List (Item C A)) (rest : Outcome C A)
      → Ends items rest
      → Ends (test c ∷ items) (
          after
            (called c ∷ [])
            (if ret c == 0 then rest else record { events = failed c (ret c) ∷ []; status = 1 }))
  test-Ends c items rest r = elim (Bool-cases (ret c == 0)) [
    | inl e ↦ rw e (Ends-cons (test c) e r)
    | inr e ↦ rw e (exited [] items c refl refl (ground (arith, e)))
  ]

  warn-after :
      (c : C) (rest : Outcome C A)
      → after (events_of (warn c)) rest
        ≡ after (called c ∷ []) (if ret c == 0 then rest else after (failed c (ret c) ∷ []) rest)
  warn-after c rest = elim (Bool-cases (ret c == 0)) [ inl e ↦ rw e refl | inr e ↦ rw e refl ]

  pub run_lem : (items : List (Item C A)) → Ends items (run items)
  unfolding run
  run_lem [] = returned refl
  run_lem (act a ∷ items) = Ends-cons (act a) refl (run_lem items)
  run_lem (test c ∷ items) = test-Ends c items (run items) (run_lem items)
  run_lem (warn c ∷ items) =
      subst (Ends (warn c ∷ items)) (warn-after c (run items))
        (Ends-cons (warn c) refl (run_lem items))

-- No event `p` before the first event that is a mark.
abbrev pub is_preceded : {E : Type 0} → (mark p : E → Bool) → List E → Bool
is_preceded mark p [] = true
is_preceded mark p (e ∷ es) =
    let rest = is_preceded mark p es in if mark e then true else not (p e) && rest

and-both : (a b : Bool) → (a && b) ≡ true → (a ≡ true) × (b ≡ true)
and-both a b h = (ground (arith, h), ground (arith, h))

-- The events may stop behind any one, with one that is not `p`.
is_preceded-cut :
    {E : Type 0} (mark p : E → Bool) (es fs : List E) (x y : E)
    → p y ≡ false
    → is_preceded mark p (es ++ x ∷ fs) ≡ true
    → is_preceded mark p (es ++ x ∷ y ∷ []) ≡ true
is_preceded-cut mark p [] fs x y n h = ground (arith, n, h)
is_preceded-cut mark p (e ∷ es) fs x y n h = elim (Bool-cases (mark e)) [
  | inl m ↦ rw m refl
  | inr m ↦
      let (a, b) = and-both (not (p e)) _ (rw m at h) in
      rw (m, a) (is_preceded-cut mark p es fs x y n b)
]

all_events-append :
    {C A : Type 0} (ret : C → ℕ) (xs ys : List (Item C A))
    → all_events ret (xs ++ ys) ≡ all_events ret xs ++ all_events ret ys
all_events-append ret [] ys = refl
all_events-append ret (i ∷ xs) ys =
    ap (λ l. events_of ret i ++ l) (all_events-append ret xs ys)
    ∙ sym (append_assoc (events_of ret i) (all_events ret xs) (all_events ret ys))

-- What comes first when all is done comes first wherever the process ends.
pub Ends-is_preceded :
    {C A : Type 0} {ret : C → ℕ} {items : List (Item C A)} {o : Outcome C A}
    (mark p : Event C A → Bool)
    → ((c : C) (k : ℕ) → p (failed c k) ≡ false)
    → is_preceded mark p (all_events ret items) ≡ true
    → Ends ret items o
    → is_preceded mark p o.events ≡ true
Ends-is_preceded mark p n h (returned q) = h
Ends-is_preceded {ret} mark p n h (exited before behind c e q r) =
    is_preceded-cut mark p (all_events ret before) (all_events ret behind) (called c)
      (failed c (ret c)) (n c (ret c))
      (subst (λ l. is_preceded mark p l ≡ true)
        (ap (all_events ret) e ∙ all_events-append ret before (test c ∷ behind)) h)
