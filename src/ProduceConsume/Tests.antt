-- ===== src/ProduceConsume/Tests.antt =====
-- src/16.lab_produce_consume.c at concrete states.
use qnx_box.Prelude.{◌≡◌, refl, ◌≢◌, inl, true, false, ◌∷◌}
use qnx_box.ProduceConsume.{
  to_produce, to_consume, asleep, State, producer_enters, produces, producer_signals,
  consumer_enters, consumer_waits, init, Reach, here, next,
}
use qnx_box.ProduceConsume.Turns.{countdown, take_turns}

turns_apart : to_produce ≢ to_consume
turns_apart e = cc

-- The consumer sleeps and the producer has produced.
abbrev produced_one : (s : State) × Reach init s
produced_one = (
  _,
  next
      (next (next (next here (consumer_enters refl refl)) (consumer_waits refl turns_apart refl))
        (producer_enters refl refl))
      (produces refl (inl refl)),
)

take_turns_example :
    (produced_one.0.produced ≡ countdown produced_one.0.product)
    × (produced_one.0.running ≡ true
        → produced_one.0.turn ≡ to_produce
        → produced_one.0.consumed ≡ countdown produced_one.0.product)
    × (produced_one.0.running ≡ true
        → produced_one.0.turn ≡ to_consume
        → produced_one.0.product ∷ produced_one.0.consumed ≡ countdown produced_one.0.product)
take_turns_example = take_turns produced_one.1

-- The stop comes in the producer's delay, while the consumer sleeps.
abbrev stopped : State
stopped = record init { running = false; turn = to_produce; consumer = asleep }

-- The producer comes round again before the consumer has consumed.
abbrev eager : (s : State) × Reach init s
eager = (
  _,
  next
      (next (next (next here (producer_enters refl refl)) (produces refl (inl refl)))
        (producer_signals refl))
      (producer_enters refl refl),
)
