-- ===== src/Atomic/Counting.antt =====
-- What the threads of src/14.lab_atomic.c have counted, and that they return.
use mathlib.Core.Path.{subst}
use native.Mathlib.Decide.{dec_lt}
use qnx_box.Prelude.{
  ℕ, ◌+◌, ◌-◌, ◌*◌, ◌≤◌, ◌<◌, ◌≡◌, refl, sym, Bool, true, false, ◌⊎◌, inl, inr, ◌==◌, arith, update,
  weigh, weigh-update, weigh-const, find_failing, Bool-cases,
}
use qnx_box.Atomic.{
  number_of_threads, Pc, top, adding, reading, holding, finished, Shared, Move, atomic, plain,
  fetch_add, read, write, finish, System, Step, pick, init, Run, start, next, IsJoined,
  ending_value, is_error,
}

module _ (updates : ℕ) where
  -- The updates that a thread has done.
  abbrev done : Pc → ℕ
  done (top i) = i
  done (adding i) = i
  done (reading i) = i
  done (holding i old) = i
  done finished = updates

  -- The steps that it has still to make at most.
  abbrev steps_left : Pc → ℕ
  steps_left (top i) = 3 * (updates - i) + 1
  steps_left (adding i) = 3 * (updates - i)
  steps_left (reading i) = 3 * (updates - i)
  steps_left (holding i old) = 3 * (updates - i) - 1
  steps_left finished = 0

  -- A thread is where its mode takes it, and what it has read is not more than what was counted.
  abbrev Place : Bool → ℕ → Pc → Type 0
  Place b total (top i) = i ≤ updates
  Place b total (adding i) = (i < updates) × (b ≡ true)
  Place b total (reading i) = (i < updates) × (b ≡ false)
  Place b total (holding i old) = (i < updates) × (b ≡ false) × (old ≤ total)
  Place b total finished = Unit

  abbrev total : System → ℕ
  total s = weigh done number_of_threads s.pc

  -- With atomic_fetch_add the number is what was counted; without it is not more.
  abbrev Values : Bool → Shared → ℕ → Type 0
  Values true m total = (m.at_value ≡ total) × (m.value ≡ 0)
  Values false m total = (m.at_value ≡ 0) × (m.value ≤ total)

  record Inv (b : Bool) (k : ℕ) (s : System) : Type 0 where
    place : (t : ℕ) → t < number_of_threads → Place b (total s) (s.pc t)
    values : Values b s.mem (total s)
    left : k + weigh steps_left number_of_threads s.pc ≤ 4 * (3 * updates + 1)

  -- What a move does to its thread and to the values.
  Move-lem :
      {b : Bool} {m m' : Shared} {p p' : Pc} (total : ℕ)
      → Move updates b m p m' p'
      → Place b total p
      → Values b m total
      → (steps_left p' < steps_left p)
        × (done p ≤ done p')
        × Place b (total + (done p' - done p)) p'
        × Values b m' (total + (done p' - done p))
  Move-lem {b} total (atomic u i) h v = ground (arith, u, i)
  Move-lem {b} total (plain u i) h v = ground (arith, u, i)
  Move-lem {b} total (finish g) h v = ground (arith, g)
  Move-lem {b} total mv h v = ground arith

  Place-le : (b : Bool) {x y : ℕ} (p : Pc) → x ≤ y → Place b x p → Place b y p
  Place-le b p le h = ground (arith, le, h)

  Run-Inv : {b : Bool} {k : ℕ} {s : System} → Run updates b k s → Inv b k s
  Run-Inv {b} start = record {
    place = λ t lt. omega arith;
    values = ground (arith, weigh-const done 0 number_of_threads init.pc (λ i lt. refl));
    left = omega (
      arith,
      weigh-const steps_left (3 * updates + 1) number_of_threads init.pc (λ i lt. omega arith),
    );
  }
  Run-Inv {b} (next {s} r (pick t {m} {p} lt mv)) =
      let inv = Run-Inv r in
      let (less, more, place, values) = Move-lem (total s) mv (inv.place t lt) inv.values in
      let sum : total s + (done p - done (s.pc t))
          ≡ total (record { mem = m; pc = update s.pc t p }) =
        omega (arith, more, weigh-update done number_of_threads s.pc t p lt) in
      record {
        place = λ j h. elim (Bool-cases (t == j)) [
          | inl same ↦ rw same (subst (λ x. Place b x p) sum place)
          | inr other ↦ rw other (Place-le b (s.pc j) (omega (arith, sum)) (inv.place j h))
        ];
        values = subst (Values b m) sum values;
        left = omega (arith, inv.left, less, weigh-update steps_left number_of_threads s.pc t p lt);
      }

  total_joined : (s : System) → IsJoined s → total s ≡ 4 * updates
  total_joined s joined =
      weigh-const done updates number_of_threads s.pc (λ t lt. ground (arith, joined t lt))

  -- What the main thread finds when the four threads have returned.
  abbrev pub Found : Bool → Shared → Type 0
  Found true m =
      (ending_value true m ≡ 4 * updates) × (is_error updates true m ≡ false) × (m.value ≡ 0)
  Found false m = (ending_value false m ≤ 4 * updates) × (m.at_value ≡ 0)

  joined-Found : {k : ℕ} {s : System} (b : Bool) → Run updates b k s → IsJoined s → Found b s.mem
  joined-Found {s} true r joined = ground (arith, (Run-Inv r).values, total_joined s joined)
  joined-Found {s} false r joined = ground (arith, (Run-Inv r).values, total_joined s joined)

  abbrev is_finished : Pc → Bool
  is_finished finished = true
  is_finished _ = false

  module _ {b : Bool} {s : System} (t : ℕ) (lt : t < number_of_threads) where
    moved_at :
        {p p' : Pc} {m' : Shared}
        → s.pc t ≡ p
        → Move updates b s.mem p m' p'
        → (u : System) × Step updates b s u
    moved_at {p'} {m'} at mv =
        (_, pick t lt (subst (λ q. Move updates b s.mem q m' p') (sym at) mv))

    unfinished_moves :
        (p : Pc) → s.pc t ≡ p → is_finished p ≡ false → (u : System) × Step updates b s u
    unfinished_moves (top i) at f = elim (dec_lt i updates) [
      | no large ↦ moved_at at (finish (omega arith))
      | yes small ↦ elim (Bool-cases b) [
        | inl mode ↦ moved_at at (atomic mode small)
        | inr mode ↦ moved_at at (plain mode small)
      ]
    ]
    unfinished_moves (adding i) at f = moved_at at fetch_add
    unfinished_moves (reading i) at f = moved_at at read
    unfinished_moves (holding i old) at f = moved_at at write
    unfinished_moves finished at f = absurd cc

  -- Whatever the schedule, no run has more than three steps for each update and one for each thread's last
  -- test; and a run that cannot go on is one in which all four threads have returned. Then, with
  -- atomic_fetch_add, the main thread finds every update of every thread counted and prints no error;
  -- without it, it finds no more than that. The variable of the other mode is 0.
  pub counting_ends :
      {b : Bool} {k : ℕ} {s : System}
      → Run updates b k s
      → (k ≤ 4 * (3 * updates + 1))
        × ((IsJoined s × Found b s.mem) ⊎ ((u : System) × Step updates b s u))
  counting_ends {b} {s} r = (
    omega (arith, (Run-Inv r).left),
    elim (find_failing is_finished number_of_threads s.pc) [
      | inl all ↦
          let joined : IsJoined s = λ t lt. ground (arith, all t lt) in
          inl (joined, joined-Found b r joined)
      | inr (t, lt, e) ↦ inr (unfinished_moves t lt (s.pc t) refl e)
    ],
  )
