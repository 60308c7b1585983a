-- ===== src/Variables/Ending.antt =====
-- The threads of src/11.lab_assignment_2.c return after `done` was set.
use mathlib.Core.Path.{subst}
use qnx_box.Prelude.{
  ℕ, suc, ◌+◌, ◌*◌, ◌≤◌, ◌<◌, ◌≡◌, refl, sym, ◌⊎◌, inl, inr, Bool, true, false, arith, ◌==◌, update,
  weigh, weigh-update, weigh-bound, Option-cases, Bool-cases, find_failing,
}
use qnx_box.Variables.{
  Pc, top, locking, inside, testing, reporting, fixing, working, worked, add1, added1, sub1,
  subbed1, add2, added2, sub2, subbed2, leaving, finished, Shared, Move, stay, leave, acquire,
  read1, differ, agree, read_fix, fix, read3, work, read_add1, do_add1, read_sub1, do_sub1,
  read_add2, do_add2, read_sub2, do_sub2, release, System, pick, init, Reach, next, IsJoined,
}
use qnx_box.Variables.Equal.{is_critical, Inv, Reach-Inv}

-- The moves that a thread can still make once `done` is set.
abbrev pub moves_left : Pc → ℕ
moves_left top = 1
moves_left locking = 18
moves_left inside = 17
moves_left (testing _) = 16
moves_left reporting = 15
moves_left (fixing _) = 14
moves_left working = 13
moves_left (worked _) = 12
moves_left add1 = 11
moves_left (added1 _) = 10
moves_left sub1 = 9
moves_left (subbed1 _) = 8
moves_left add2 = 7
moves_left (added2 _) = 6
moves_left sub2 = 5
moves_left (subbed2 _) = 4
moves_left leaving = 2
moves_left finished = 0

-- The moves of the threads from a state on, `k` of them, where the main thread has set `done`.
pub data Tail (use_mutex : Bool) (n : ℕ) (a : System) : ℕ → System → Type 0 where
  none_yet : Tail use_mutex n a 0 a
  one_more :
      {k t : ℕ} {s : System} {m : Shared} {p : Pc}
      → Tail use_mutex n a k s
      → t < n
      → Move use_mutex t s.mem (s.pc t) m p
      → Tail use_mutex n a (suc k) (record { mem = m; pc = update s.pc t p })

Move-moves_left :
    {b : Bool} {t : ℕ} {m m' : Shared} {p p' : Pc}
    → Move b t m p m' p'
    → m.done ≡ true
    → (suc (moves_left p') ≤ moves_left p) × (m'.done ≡ true)
Move-moves_left (stay f) d = absurd (ground arith)
Move-moves_left mv d = ground arith

moves_left-le : (p : Pc) → moves_left p ≤ 18
moves_left-le p = ground arith

Tail-left :
    {b : Bool} {n : ℕ} {a : System} {k : ℕ} {s : System}
    → Tail b n a k s
    → a.mem.done ≡ true
    → (k + weigh moves_left n s.pc ≤ n * 18) × (s.mem.done ≡ true)
Tail-left {n} {a} none_yet d =
    (omega (arith, weigh-bound moves_left 18 n a.pc (λ i lt. moves_left-le (a.pc i))), d)
Tail-left {n} {a} (one_more {k} {t} {s} {p} r lt mv) d =
    let (left, d') = Tail-left r d in
    let (less, d'') = Move-moves_left mv d' in
    (omega (arith, left, less, weigh-update moves_left n s.pc t p lt), d'')

-- Once `done` is set the `n` threads make at most 18 moves each, with and without the mutex.
pub moves_bound :
    {b : Bool} {n : ℕ} {a : System} {k : ℕ} {s : System}
    → Tail b n a k s
    → a.mem.done ≡ true
    → k ≤ n * 18
moves_bound r d = omega (arith, (Tail-left r d).0)

abbrev pub is_finished : Pc → Bool
is_finished finished = true
is_finished _ = false

Moved : ℕ → Shared → Pc → Type 0
Moved t m p = (m' : Shared) × (p' : Pc) × Move true t m p m' p'

free_moves : (t : ℕ) (m : Shared) (p : Pc) → is_critical p ≡ true → Moved t m p
unfolding Moved
free_moves t m (testing v) c = elim (Bool-cases (v == m.var2)) [
  | inl e ↦ (_, _, agree (ground arith))
  | inr e ↦ (_, _, differ (λ h. ground arith))
]
free_moves t m inside c = (_, _, read1)
free_moves t m reporting c = (_, _, read_fix)
free_moves t m (fixing v) c = (_, _, fix)
free_moves t m working c = (_, _, read3)
free_moves t m (worked v) c = (_, _, work)
free_moves t m add1 c = (_, _, read_add1)
free_moves t m (added1 v) c = (_, _, do_add1)
free_moves t m sub1 c = (_, _, read_sub1)
free_moves t m (subbed1 v) c = (_, _, do_sub1)
free_moves t m add2 c = (_, _, read_add2)
free_moves t m (added2 v) c = (_, _, do_add2)
free_moves t m sub2 c = (_, _, read_sub2)
free_moves t m (subbed2 v) c = (_, _, do_sub2)
free_moves t m leaving c = (_, _, release refl)
free_moves t m p c = absurd (ground arith)

abbrev pub Next : ℕ → System → Type 0
Next n s = (t : ℕ) × (m : Shared) × (p : Pc) × (t < n) × Move true t s.mem (s.pc t) m p

module _ {n : ℕ} {s : System} (inv : Inv n s) where
  critical_at : (t : ℕ) → t < n → is_critical (s.pc t) ≡ true → Next n s
  unfolding Moved
  critical_at t lt c = let (m', p', mv) = free_moves t s.mem (s.pc t) c in (t, m', p', lt, mv)

  moved_at :
      (t : ℕ) {p p' : Pc} {m' : Shared} → t < n → s.pc t ≡ p → Move true t s.mem p m' p' → Next n s
  moved_at t {p'} {m'} lt e mv = (t, m', p', lt, subst (λ q. Move true t s.mem q m' p') (sym e) mv)

  waiter_moves : (t : ℕ) → t < n → s.pc t ≡ locking → Next n s
  waiter_moves t lt e = elim (Option-cases s.mem.lock) [
    | inl free ↦ moved_at t lt e (acquire refl free)
    | inr (o, taken) ↦ let (c, lto) = inv.held o taken in critical_at o lto c
  ]

  tester_moves : (t : ℕ) → t < n → s.pc t ≡ top → Next n s
  tester_moves t lt e = elim (Bool-cases s.mem.done) [
    | inl d ↦ moved_at t lt e (leave d)
    | inr d ↦ moved_at t lt e (stay d)
  ]

  unfinished_moves : (t : ℕ) (p : Pc) → t < n → s.pc t ≡ p → is_finished p ≡ false → Next n s
  unfinished_moves t top lt e f = tester_moves t lt e
  unfinished_moves t locking lt e f = waiter_moves t lt e
  unfinished_moves t finished lt e f = absurd (cc)
  unfinished_moves t p lt e f = critical_at t lt (ground arith)

Tail-Reach :
    {b : Bool} {n : ℕ} {a : System} {k : ℕ} {s : System}
    → Tail b n a k s
    → Reach b n init a
    → Reach b n init s
Tail-Reach none_yet r = r
Tail-Reach (one_more l lt mv) r = next (Tail-Reach l r) (pick _ lt mv)

-- With the mutex, from every reachable state in which `done` is set: the threads make at most 18 moves
-- each, and as long as they have not all returned one of them can move. So they all return.
pub threads_return :
    {n k : ℕ} {a s : System}
    → Reach true n init a
    → a.mem.done ≡ true
    → Tail true n a k s
    → (k ≤ n * 18) × (IsJoined n s ⊎ Next n s)
threads_return {n} {s} r d l = (
  moves_bound l d,
  elim (find_failing is_finished n s.pc) [
    | inl all ↦ inl (λ t lt. ground (arith, all t lt))
    | inr (t, lt, e) ↦ inr (unfinished_moves (Reach-Inv (Tail-Reach l r)) t (s.pc t) lt refl e)
  ],
)
