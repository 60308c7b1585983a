-- ===== src/PosixShm/Exchange/Invariant.antt =====
-- What holds of the object of src/include/23.shm_posix.h, its producer and its consumers at any time.
use qnx_box.Prelude.{
  ℕ, suc, ◌≡◌, refl, ◌≢◌, Bool, true, false, Option, none, some, List, [], ◌∷◌, arith, update,
}
use qnx_box.PosixShm.Exchange.{
  u64, data_update, Object, Producer, sleeping, counting, counted, printing, writing, unlocking,
  broadcasting, Produce, lock, Place, testing, waiting, copying, copying_text, leaving, showing,
  Consumer, goes, Consume, enter, wait, relock, go_on, System, signalled, produce, broadcast,
  consume, init, Reach, here, next,
}

-- The producer has the mutex.
abbrev pub is_in : Producer → Bool
is_in counting = true
is_in (counted v) = true
is_in printing = true
is_in writing = true
is_in unlocking = true
is_in _ = false

-- The producer has changed the version and not yet signalled it.
abbrev pub is_due : Producer → Bool
is_due printing = true
is_due writing = true
is_due unlocking = true
is_due broadcasting = true
is_due _ = false

-- The consumer has the mutex.
abbrev pub is_holding : Place → Bool
is_holding testing = true
is_holding copying = true
is_holding copying_text = true
is_holding leaving = true
is_holding _ = false

-- The text belongs to the version.
abbrev pub Written : Object → Type 0
Written m = m.updates ≢ 0 → m.text ≡ some (data_update m.version)

abbrev pub Stage : Object → Producer → Type 0
Stage m printing = m.updates ≢ 0
Stage m writing = m.updates ≢ 0
Stage m (counted v) = Written m × (v ≡ m.version)
Stage m _ = Written m

-- What a consumer has read.
abbrev pub Held : Object → Consumer → Place → Type 0
Held m c copying = c.last_version ≢ m.version
Held m c copying_text = (c.last_version ≡ m.version) × (m.updates ≢ 0)
Held m c leaving = c.local_text ≡ some (data_update c.last_version)
Held m c showing = c.local_text ≡ some (data_update c.last_version)
Held m c _ = Unit

-- Every text belongs to its version.
abbrev pub AreWhole : List (ℕ × Option (List ℕ)) → Type 0
AreWhole [] = Unit
AreWhole ((v, t) ∷ shown) = (t ≡ some (data_update v)) × AreWhole shown

pub record Inv (s : System) : Type 0 where
  pub p_owner : is_in s.producer ≡ true → s.obj.mutex ≡ some 0
  pub p_held : s.obj.mutex ≡ some 0 → is_in s.producer ≡ true
  pub c_owner : (j : ℕ) → is_holding (s.consumer j).place ≡ true → s.obj.mutex ≡ some (suc j)
  pub c_held : (j : ℕ) → s.obj.mutex ≡ some (suc j) → is_holding (s.consumer j).place ≡ true
  pub counts : s.obj.version ≡ u64 s.obj.updates
  pub stage : Stage s.obj s.producer
  pub up_to_date :
      (j : ℕ)
      → (s.consumer j).place ≡ waiting
      → is_due s.producer ≡ false
      → (s.consumer j).last_version ≡ s.obj.version
  pub seen : (j : ℕ) → s.obj.updates ≡ 0 → (s.consumer j).last_version ≡ 0
  pub held : (j : ℕ) → Held s.obj (s.consumer j) (s.consumer j).place
  pub whole : (j : ℕ) → AreWhole (s.consumer j).shown

module _ {s : System} (inv : Inv s) where
  open inv use {p_owner, p_held, c_owner, c_held, counts, stage, up_to_date, seen, held, whole}

  Produce-Inv :
      {p p' : Producer} {m' : Object}
      → Produce s.obj p m' p'
      → s.producer ≡ p
      → Inv (record s { obj = m'; producer = p' })
  Produce-Inv (lock free) e = record {
    p_owner = λ c. refl;
    p_held = λ h. refl;
    c_owner = λ j c. ground (arith, free, c_owner j);
    c_held = λ j h. ground (arith, h);
    counts = counts;
    stage = ground (arith, stage);
    up_to_date = λ j w d. ground (arith, up_to_date j);
    seen = seen;
    held = held;
    whole = whole;
  }
  Produce-Inv {p'} mv e = record {
    p_owner = λ c. ground (arith, p_owner);
    p_held = λ h. ground (arith, p_held);
    c_owner = λ j c. ground (arith, p_owner, c_owner j);
    c_held = λ j h. ground (arith, p_owner, c_held j);
    counts = ground (arith, counts, stage);
    stage = ground (arith, stage);
    up_to_date = λ j w d. ground (arith, stage, up_to_date j);
    seen = λ j z. ground (arith, seen j);
    held = λ j. ground (arith, held j, c_owner j, p_owner);
    whole = whole;
  }

  signalled-Inv :
      s.producer ≡ broadcasting
      → Inv (record s { producer = sleeping; consumer = λ j. signalled (s.consumer j) })
  signalled-Inv e = record {
    p_owner = λ c. ground (arith, p_owner);
    p_held = λ h. ground (arith, p_held);
    c_owner = λ j c. ground (arith, c_owner j);
    c_held = λ j h. ground (arith, c_held j);
    counts = counts;
    stage = ground (arith, stage);
    up_to_date = λ j w d. ground (arith, up_to_date j);
    seen = seen;
    held = λ j. ground (arith, held j);
    whole = whole;
  }

  acquired-Inv :
      (j : ℕ)
      → s.obj.mutex ≡ none
      → is_holding (s.consumer j).place ≡ false
      → Inv (record s {
        obj = record s.obj { mutex = some (suc j) };
        consumer = update s.consumer j (goes (s.consumer j) testing);
      })
  acquired-Inv j free e = record {
    p_owner = λ c. ground (arith, c, p_owner, free);
    p_held = λ h. ground (arith, h, p_held, free);
    c_owner = λ i c. ground (arith, c, c_owner i, free);
    c_held = λ i h. ground (arith, h, c_held i, free);
    counts = counts;
    stage = stage;
    up_to_date = λ i w d. ground (arith, up_to_date i);
    seen = λ i z. ground (arith, seen i);
    held = λ i. ground (arith, held i);
    whole = λ i. ground (arith, whole i);
  }

  Consume-Inv :
      (j : ℕ) {p : Place} {m' : Object} {c' : Consumer}
      → Consume j s.obj (s.consumer j) p m' c'
      → (s.consumer j).place ≡ p
      → Inv (record s { obj = m'; consumer = update s.consumer j c' })
  Consume-Inv j (enter free) e = acquired-Inv j free (ground (arith, e))
  Consume-Inv j (relock free) e = acquired-Inv j free (ground (arith, e))
  Consume-Inv j (wait same) e = record {
    p_owner = λ c. ground (arith, c, p_owner, c_owner j);
    p_held = λ h. ground (arith, h, p_held, c_owner j);
    c_owner = λ i c. ground (arith, c, c_owner i, c_owner j);
    c_held = λ i h. ground (arith, h, c_held i, c_owner j);
    counts = counts;
    stage = stage;
    up_to_date = λ i w d. ground (arith, up_to_date i, same);
    seen = λ i z. ground (arith, seen i);
    held = λ i. ground (arith, held i);
    whole = λ i. ground (arith, whole i);
  }
  Consume-Inv j (go_on ne) e = record {
    p_owner = λ c. ground (arith, c, p_owner, c_owner j);
    p_held = λ h. ground (arith, h, p_held, c_owner j);
    c_owner = λ i c. ground (arith, c, c_owner i, c_owner j);
    c_held = λ i h. ground (arith, h, c_held i, c_owner j);
    counts = counts;
    stage = stage;
    up_to_date = λ i w d. ground (arith, up_to_date i);
    seen = λ i z. ground (arith, seen i);
    held = λ i. ground (arith, held i, ne);
    whole = λ i. ground (arith, whole i);
  }
  Consume-Inv j {c'} mv e = record {
    p_owner = λ c. ground (arith, p_owner, c_owner j);
    p_held = λ h. ground (arith, p_held, c_owner j);
    c_owner = λ i c. ground (arith, c_owner i, c_owner j);
    c_held = λ i h. ground (arith, c_held i, c_owner j);
    counts = counts;
    stage = stage;
    up_to_date = λ i w d. ground (arith, up_to_date i);
    seen = λ i z. ground (arith, seen i, counts);
    held = λ i. ground (arith, held i, held j, stage, c_owner j, p_owner, counts, seen j);
    whole = λ i. ground (arith, whole i, held j);
  }

pub Reach-Inv : {s : System} → Reach init s → Inv s
Reach-Inv here = record {
  p_owner = λ c. cc;
  p_held = λ h. cc;
  c_owner = λ j c. cc;
  c_held = λ j h. cc;
  counts = refl;
  stage = λ ne. absurd (ne refl);
  up_to_date = λ j w d. refl;
  seen = λ j z. refl;
  held = λ j. tt;
  whole = λ j. tt;
}
Reach-Inv (next r (produce mv)) = Produce-Inv (Reach-Inv r) mv refl
Reach-Inv (next r (broadcast e)) = signalled-Inv (Reach-Inv r) e
Reach-Inv (next r (consume j mv)) = Consume-Inv (Reach-Inv r) j mv refl
