-- ===== src/PosixShm/Exchange/Printing.antt =====
-- What the consumers of src/23.lab_shm_posix_consumer.c print of the versions of the producer.
use qnx_box.Prelude.{
  ℕ, suc, ◌^◌, ◌≤◌, ◌<◌, ◌≡◌, refl, ◌≢◌, Bool, true, false, Option, List, [], ◌∷◌, arith,
  Bool-cases, ◌==◌, inl, inr,
}
use qnx_box.PosixShm.Exchange.{
  Object, Producer, Produce, awake, Place, waiting, copying_text, leaving, showing, Consumer,
  Consume, wake, copy, show, System, produce, broadcast, consume, init, Reach, here, next,
}
use qnx_box.PosixShm.Exchange.Invariant.{is_due, AreWhole, Inv, Reach-Inv}

-- Whatever the order of the accesses, and however often waits return for no reason: every text that a
-- consumer prints is complete, and is the one of the version that it took with it.
pub texts_whole : {s : System} → Reach init s → (j : ℕ) → AreWhole (s.consumer j).shown
texts_whole r = (Reach-Inv r).whole

-- No update is slept through: where a consumer is asleep in pthread_cond_wait and its version is not the
-- one in the object, the producer is between its update and its broadcast.
pub update_is_due :
    {s : System}
    → Reach init s
    → (j : ℕ) → (s.consumer j).place ≡ waiting
    → (s.consumer j).last_version ≢ s.obj.version
    → is_due s.producer ≡ true
update_is_due {s} r j asleep old = elim (Bool-cases (is_due s.producer)) [
  | inl due ↦ due
  | inr idle ↦ absurd (old ((Reach-Inv r).up_to_date j asleep idle))
]

-- The versions, the last first, are below a bound and fall.
abbrev pub IsFalling : ℕ → List (ℕ × Option (List ℕ)) → Type 0
IsFalling b [] = Unit
IsFalling b ((v, t) ∷ shown) = (v < b) × IsFalling v shown

IsFalling-le : {a b : ℕ} (l : List (ℕ × Option (List ℕ))) → a ≤ b → IsFalling a l → IsFalling b l
IsFalling-le [] le h = tt
IsFalling-le ((v, t) ∷ l) le h = (omega (arith, h.0), h.1)

-- The consumer has a version that it has not yet printed.
abbrev pub is_new : Place → Bool
is_new copying_text = true
is_new leaving = true
is_new showing = true
is_new _ = false

-- A consumer is never ahead of the object, and what it printed is behind what it has.
abbrev pub Rises : Object → Consumer → Type 0
Rises m c =
    (c.last_version ≤ m.version)
    × (is_new c.place ≡ true → IsFalling c.last_version c.shown)
    × IsFalling (suc c.last_version) c.shown

Produce-Rises :
    {s : System} {p p' : Producer} {m' : Object}
    → Inv s
    → Produce s.obj p m' p'
    → s.producer ≡ p
    → m'.updates < 2 ^ 64
    → (s.obj.version ≤ m'.version) × (s.obj.updates ≤ m'.updates)
Produce-Rises inv awake e small = (omega arith, omega arith)
Produce-Rises inv mv e small = ground (arith, inv.stage, inv.counts)

Consume-Rises :
    {s : System} (j : ℕ) {p : Place} {m' : Object} {c' : Consumer}
    → Inv s
    → Consume j s.obj (s.consumer j) p m' c'
    → (s.consumer j).place ≡ p
    → Rises s.obj (s.consumer j)
    → Rises m' c'
Consume-Rises {s} j inv copy e (le, new, old) =
    let rises : IsFalling s.obj.version (s.consumer j).shown =
      IsFalling-le (s.consumer j).shown (ground (arith, inv.held j)) old in
    (ground arith, λ n. rises, IsFalling-le (s.consumer j).shown (omega arith) rises)
Consume-Rises j inv show e (le, new, old) =
    (le, λ n. absurd (ground (arith, n)), (omega arith, new (ground (arith, e))))
Consume-Rises j inv mv e (le, new, old) = (le, λ n. new (ground (arith, n)), old)

-- A consumer writes only the mutex.
Consume-same :
    {m m' : Object} {c c' : Consumer} {p : Place} (j : ℕ)
    → Consume j m c p m' c'
    → (m'.version ≡ m.version) × (m'.updates ≡ m.updates)
Consume-same j wake = (refl, refl)
Consume-same j mv = (refl, refl)

Reach-Rises :
    {s : System} → Reach init s → s.obj.updates < 2 ^ 64 → (j : ℕ) → Rises s.obj (s.consumer j)
Reach-Rises here small j = (omega arith, λ n. tt, tt)
Reach-Rises (next r (produce mv)) small j =
    let (grows, counts) = Produce-Rises (Reach-Inv r) mv refl small in
    let (le, new, old) = Reach-Rises r (omega arith) j in (omega arith, new, old)
Reach-Rises (next {s} r (broadcast e)) small j =
    let (le, new, old) = Reach-Rises r small j in (le, λ n. new (ground (arith, n)), old)
Reach-Rises (next {s} r (consume i {m} {c} mv)) small j =
    let (version, updates) = Consume-same i mv in
    elim (Bool-cases (i == j)) [
      | inl same ↦
          rw same (
            Consume-Rises i (Reach-Inv r) mv refl (Reach-Rises r (omega (arith, updates, small)) i))
      | inr other ↦
          let (le, new, old) = Reach-Rises r (omega (arith, updates, small)) j in
          rw other (omega (arith, le, version), new, old)
    ]

-- While the producer has made fewer than 2 ^ 64 updates, the versions that a consumer prints rise: none
-- is printed twice, and none is printed that the producer has not reached.
pub versions_rise :
    {s : System}
    → Reach init s
    → s.obj.updates < 2 ^ 64
    → (j : ℕ) → IsFalling (suc s.obj.updates) (s.consumer j).shown
versions_rise {s} r small j =
    let (le, new, old) = Reach-Rises r small j in
    IsFalling-le (s.consumer j).shown (ground (arith, (Reach-Inv r).counts)) old
