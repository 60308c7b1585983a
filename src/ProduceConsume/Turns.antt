-- ===== src/ProduceConsume/Turns.antt =====
-- The producer and the consumer of src/16.lab_produce_consume.c take turns.
use qnx_box.Prelude.{ℕ, zero, suc, ◌≡◌, refl, ◌≢◌, ◌⊎◌, inl, inr, true, false, List, [], ◌∷◌, arith}
use qnx_box.ProduceConsume.{
  Turn, to_produce, to_consume, top, ready, asleep, notify, State, Step, producer_enters,
  producer_leaves, producer_waits, produces, producer_signals, producer_spurious, consumer_enters,
  consumer_leaves, consumer_waits, consumes, consumer_signals, consumer_spurious, stop, init, Reach,
  here, next,
}

-- n, …, 2, 1
unfoldable pub countdown : ℕ → List ℕ
countdown zero = []
countdown (suc n) = suc n ∷ countdown n

-- What has been consumed, by whose turn it is.
abbrev expected : Turn → ℕ → List ℕ
expected to_produce n = countdown n
expected to_consume zero = []
expected to_consume (suc n) = countdown n

-- The products that were produced, whenever it may be.
produced_all : {s : State} → Reach init s → s.produced ≡ countdown s.product
unfolding countdown
produced_all here = refl
produced_all (next r (produces e w)) = ground (arith, produced_all r)
produced_all (next r (consumes e w)) = produced_all r
produced_all (next r other) = produced_all r

record Inv (s : State) : Type 0 where
  count : s.turn ≡ to_consume → s.product ≢ 0
  consumed : s.running ≡ true → s.consumed ≡ expected s.turn s.product
  -- a thread that sleeps although it is its turn has a signal coming
  producer_woken :
      s.producer ≡ asleep → s.turn ≡ to_produce → (s.consumer ≡ notify) ⊎ (s.running ≡ false)
  consumer_woken :
      s.consumer ≡ asleep → s.turn ≡ to_consume → (s.producer ≡ notify) ⊎ (s.running ≡ false)

consumed-pred : (n : ℕ) (l : List ℕ) → n ≢ 0 → l ≡ expected to_consume n → n ∷ l ≡ countdown n
unfolding countdown
consumed-pred zero l ne e = absurd (ne refl)
consumed-pred (suc n) l ne e = ground arith

-- Where the thread that moves stood, for the catch-all clause below, which cannot name the premises.
abbrev Guard : {s t : State} → Step s t → Type 0
Guard {s} (producer_enters e w) = s.producer ≡ top
Guard {s} (producer_leaves e w) = s.producer ≡ top
Guard {s} (producer_waits e w x) = (s.producer ≡ ready) × (s.turn ≢ to_produce)
Guard {s} (producer_spurious e) = s.producer ≡ asleep
Guard {s} (consumer_enters e w) = s.consumer ≡ top
Guard {s} (consumer_leaves e w) = s.consumer ≡ top
Guard {s} (consumer_waits e w x) = (s.consumer ≡ ready) × (s.turn ≢ to_consume)
Guard {s} (consumer_spurious e) = s.consumer ≡ asleep
Guard _ = Unit

guard : {s t : State} (st : Step s t) → Guard st
guard (producer_enters e w) = e
guard (producer_leaves e w) = e
guard (producer_waits e w x) = (e, w)
guard (producer_spurious e) = e
guard (consumer_enters e w) = e
guard (consumer_leaves e w) = e
guard (consumer_waits e w x) = (e, w)
guard (consumer_spurious e) = e
guard _ = tt

Step-Inv : {s t : State} → Step s t → Inv s → Inv t
Step-Inv {s} (produces e w) inv = record {
  count = λ t. omega arith;
  consumed = λ r. ground (arith, inv.consumed r);
  producer_woken = λ a. cc;
  consumer_woken = λ a t. inl refl;
}
Step-Inv {s} (consumes e w) inv = record {
  count = λ t. cc;
  consumed = λ r. ground (arith, inv.consumed r, inv.count, consumed-pred s.product s.consumed);
  producer_woken = λ a t. inl refl;
  consumer_woken = λ a. cc;
}
Step-Inv stop inv = record {
  count = inv.count;
  consumed = λ r. cc;
  producer_woken = λ a t. inr refl;
  consumer_woken = λ a t. inr refl;
}
Step-Inv (producer_signals e) inv = record {
  count = inv.count;
  consumed = inv.consumed;
  producer_woken = λ a. cc;
  consumer_woken = λ a t. absurd (ground arith);
}
Step-Inv (consumer_signals e) inv = record {
  count = inv.count;
  consumed = inv.consumed;
  producer_woken = λ a t. absurd (ground arith);
  consumer_woken = λ a. cc;
}
Step-Inv other inv = record {
  count = inv.count;
  consumed = inv.consumed;
  producer_woken = λ a t. ground (arith, guard other, inv.producer_woken);
  consumer_woken = λ a t. ground (arith, guard other, inv.consumer_woken);
}

Reach-Inv : {s : State} → Reach init s → Inv s
unfolding countdown
Reach-Inv here = record {
  count = λ t. cc;
  consumed = λ r. refl;
  producer_woken = λ a. cc;
  consumer_woken = λ a. cc;
}
Reach-Inv (next r st) = Step-Inv st (Reach-Inv r)

-- In every reachable state the values produced are 1, 2, …, `product`, each once and in order. While
-- the program runs the values consumed are the same ones, up to `product` when it is the producer's
-- turn and up to the one before it when it is the consumer's: none is skipped and none taken twice.
pub take_turns :
    {s : State}
    → Reach init s
    → (s.produced ≡ countdown s.product)
      × (s.running ≡ true → s.turn ≡ to_produce → s.consumed ≡ countdown s.product)
      × (s.running ≡ true → s.turn ≡ to_consume → s.product ∷ s.consumed ≡ countdown s.product)
take_turns {s} r =
    let inv = Reach-Inv r in
    (
      produced_all r,
      (λ on t. ground (arith, inv.consumed on)),
      λ on t. consumed-pred s.product s.consumed (inv.count t) (ground (arith, inv.consumed on)),
    )

-- While the program runs, a thread that sleeps although it is its turn is woken by a signal that is
-- still to come.
pub turn_is_signalled :
    {s : State}
    → Reach init s
    → s.running ≡ true
    → (s.producer ≡ asleep → s.turn ≡ to_produce → s.consumer ≡ notify)
      × (s.consumer ≡ asleep → s.turn ≡ to_consume → s.producer ≡ notify)
turn_is_signalled r on =
    let inv = Reach-Inv r in
    ((λ a t. ground (arith, inv.producer_woken a t)), λ a t. ground (arith, inv.consumer_woken a t))
