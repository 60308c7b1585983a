-- ===== src/ProduceConsume/Shutdown.antt =====
-- How src/16.lab_produce_consume.c ends, after `running = 0`: nobody signals a thread that sleeps.
use qnx_box.Prelude.{◌≡◌, refl, ◌≢◌, ◌⊎◌, inl, inr, true, false, arith, suc}
use qnx_box.ProduceConsume.{
  to_consume, top, ready, asleep, finished, State, Step, producer_enters, producer_leaves,
  producer_waits, produces, producer_signals, producer_spurious, consumer_enters, consumer_leaves,
  consumer_waits, consumes, consumer_signals, consumer_spurious, stop, init, Reach, next,
}

-- A step other than a spurious wake-up.
abbrev pub IsQuiet : {s t : State} → Step s t → Type 0
IsQuiet (producer_spurious _) = ⊥
IsQuiet (consumer_spurious _) = ⊥
IsQuiet _ = Unit

-- The states that are reached without spurious wake-ups.
pub data Quietly (a : State) : State → Type 0 where
  at_rest : Quietly a a
  moves : {s t : State} → Quietly a s → (st : Step s t) → IsQuiet st → Quietly a t

-- After the stop the consumer sleeps while the producer is at the head of its loop, or has returned.
record Abandoned (s : State) : Type 0 where
  off : s.running ≡ false
  sleeps : s.consumer ≡ asleep
  gone : (s.producer ≡ top) ⊎ (s.producer ≡ finished)

Step-Abandoned : {s t : State} (st : Step s t) → IsQuiet st → Abandoned s → Abandoned t
Step-Abandoned (producer_leaves e w) q h = record {
  off = h.off;
  sleeps = h.sleeps;
  gone = inr refl;
}
Step-Abandoned stop q h = record { off = refl; sleeps = h.sleeps; gone = h.gone }
Step-Abandoned (producer_enters e w) q h = absurd (ground (arith, h.off))
Step-Abandoned (producer_waits e w x) q h = absurd (ground (arith, h.gone))
Step-Abandoned (produces e w) q h = absurd (ground (arith, h.gone))
Step-Abandoned (producer_signals e) q h = absurd (ground (arith, h.gone))
Step-Abandoned (producer_spurious e) q h = absurd q
Step-Abandoned (consumer_enters e w) q h = absurd (ground (arith, h.sleeps))
Step-Abandoned (consumer_leaves e w) q h = absurd (ground (arith, h.sleeps))
Step-Abandoned (consumer_waits e w x) q h = absurd (ground (arith, h.sleeps))
Step-Abandoned (consumes e w) q h = absurd (ground (arith, h.sleeps))
Step-Abandoned (consumer_signals e) q h = absurd (ground (arith, h.sleeps))
Step-Abandoned (consumer_spurious e) q h = absurd q

Quietly-Abandoned : {s t : State} → Quietly s t → Abandoned s → Abandoned t
Quietly-Abandoned at_rest h = h
Quietly-Abandoned (moves r st q) h = Step-Abandoned st q (Quietly-Abandoned r h)

-- If `running` is cleared while the consumer sleeps and the producer is in its delay, the consumer
-- never returns, unless a spurious wake-up helps: `main` stays in pthread_join.
pub consumer_hangs :
    {s t : State}
    → s.running ≡ false
    → s.consumer ≡ asleep
    → s.producer ≡ top
    → Quietly s t
    → t.consumer ≢ finished
consumer_hangs off a p r d =
    let h = Quietly-Abandoned r (record { off = off; sleeps = a; gone = inl p }) in
    ground (arith, h.sleeps)

-- If `running` is cleared while it is the consumer's turn and the producer is about to test, the
-- producer goes on without its turn: it overwrites the product that has not been consumed.
pub stop_overwrites :
    {s : State}
    → Reach init s
    → s.running ≡ true
    → s.turn ≡ to_consume
    → s.producer ≡ ready
    → (t : State) × Reach init t
      × (t.running ≡ false)
      × (t.product ≡ suc s.product)
      × (t.consumed ≡ s.consumed)
stop_overwrites r on t p = (_, next (next r stop) (produces p (inr refl)), refl, refl, refl)
