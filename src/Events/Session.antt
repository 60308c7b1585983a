-- ===== src/Events/Session.antt =====
-- A client of src/22.lab_events_client.c and the server of src/22.lab_events_server.c.
use mathlib.Core.Path.{subst}
use qnx_box.Prelude.{
  ℕ, ◌≡◌, refl, ap, ◌∙◌, sym, true, false, some, List, [], ◌∷◌, ◌++◌, arith, All, ◌==◌,
  if◌then◌else◌,
}
use qnx_box.Events.{
  State, Call, detach, reply, error, unblock_error, deliver, deliver_failed, Op, disconnect,
  request, notify, step, init, Run, stop, next,
}
use qnx_box.Events.Counting.{values, Counts, values-append, Counts-append}
use qnx_box.Events.Client.{Received, pulse, Output, got, msg_ev, my_pulse_code, round, loop}

-- What the server's calls send to the connection of a client: an event that is delivered comes as a pulse with
-- the code that the client put into it.
abbrev pub arriving : ℕ → ℕ → List Call → List Received
arriving code self [] = []
arriving code self (deliver rcvid e ∷ cs) =
    if e.coid == self then pulse code e.value ∷ arriving code self cs else arriving code self cs
arriving code self (deliver_failed _ _ ∷ cs) = arriving code self cs
arriving code self (reply _ ∷ cs) = arriving code self cs
arriving code self (error _ ∷ cs) = arriving code self cs
arriving code self (detach _ ∷ cs) = arriving code self cs
arriving code self (unblock_error _ ∷ cs) = arriving code self cs

-- No disconnect, no request that is accepted, and no delivery that fails.
abbrev pub IsQuiet : Op → Type 0
IsQuiet (disconnect _) = ⊥
IsQuiet (request rcvid scoid event v) = v ≡ false
IsQuiet (notify is_delivered) = is_delivered ≡ true
IsQuiet _ = Unit

abbrev pub all_got : List ℕ → List Output
all_got [] = []
all_got (v ∷ vs) = got v ∷ all_got vs

abbrev pulses : ℕ → List ℕ → List Received
pulses code [] = []
pulses code (v ∷ vs) = pulse code v ∷ pulses code vs

-- The registered event goes to the client, with the number in it.
abbrev IsServing : ℕ → State → Type 0
IsServing self s = (s.save_event.coid ≡ self) × (s.save_event.is_updateable ≡ true)

step-IsServing :
    (code self : ℕ) (op : Op) (s t : State) (here : List Call)
    → IsQuiet op
    → IsServing self s
    → step op s ≡ some (t, here)
    → IsServing self t
      × Counts s.notify_count (values here) t.notify_count
      × (arriving code self here ≡ pulses code (values here))
unfolding step
step-IsServing code self (disconnect scoid) s t here k c e = absurd k
step-IsServing code self (request rcvid scoid event true) s t here k c e = absurd (ground arith)
step-IsServing code self (notify false) s t here k c e = absurd (ground arith)
step-IsServing code self op s t here k c e = (ground arith, ground arith, ground arith)

arriving-append :
    (code self : ℕ) (cs ds : List Call)
    → arriving code self (cs ++ ds) ≡ arriving code self cs ++ arriving code self ds
arriving-append code self [] ds = refl
arriving-append code self (deliver rcvid e ∷ cs) ds =
    ground (arith, arriving-append code self cs ds)
arriving-append code self (deliver_failed _ _ ∷ cs) ds = arriving-append code self cs ds
arriving-append code self (reply _ ∷ cs) ds = arriving-append code self cs ds
arriving-append code self (error _ ∷ cs) ds = arriving-append code self cs ds
arriving-append code self (detach _ ∷ cs) ds = arriving-append code self cs ds
arriving-append code self (unblock_error _ ∷ cs) ds = arriving-append code self cs ds

pulses-append :
    (code : ℕ) (vs ws : List ℕ) → pulses code (vs ++ ws) ≡ pulses code vs ++ pulses code ws
pulses-append code [] ws = refl
pulses-append code (v ∷ vs) ws = ap (λ l. pulse code v ∷ l) (pulses-append code vs ws)

quiet_run :
    (code self : ℕ) {ops : List Op} {s t : State} {cs : List Call}
    → Run ops s cs t
    → All IsQuiet ops
    → IsServing self s
    → Counts s.notify_count (values cs) t.notify_count
      × (arriving code self cs ≡ pulses code (values cs))
quiet_run code self stop quiet serving = (refl, refl)
quiet_run code self (next {op} {s} {t} {u} {here} {rest} e r) (q, qs) serving =
    let (serving', counts, same) = step-IsServing code self op s t here q serving e in
    let (counts', same') = quiet_run code self r qs serving' in
    (
      subst (λ l. Counts s.notify_count l u.notify_count) (sym (values-append here rest))
          (Counts-append s.notify_count t.notify_count u.notify_count (values here) (values rest)
            counts counts'),
      arriving-append code self here rest
          ∙ rw (same, same') (sym (pulses-append code (values here) (values rest)))
          ∙ ap (pulses code) (sym (values-append here rest)),
    )

loop-pulses :
    (minavail : ℕ) (vs : List ℕ) → loop minavail (pulses (my_pulse_code minavail) vs) ≡ all_got vs
unfolding loop round
loop-pulses minavail [] = refl
loop-pulses minavail (v ∷ vs) = ground (arith, loop-pulses minavail vs)

-- A client that is the first to register, and stays the only one: what it prints are the numbers 0, 1, 2, …
-- of the server, each once and in order, up to the server's count, and nothing else, as long as it does not
-- disconnect and every delivery succeeds. The server's operations come in any order, and messages of
-- other kinds and requests that are refused among them.
pub numbers_shown :
    (minavail self rcvid scoid : ℕ) {ops : List Op} {t : State} {cs : List Call}
    → Run (request rcvid scoid (msg_ev self) true ∷ ops) init cs t
    → All IsQuiet ops
    → (vs : List ℕ) × (loop minavail (arriving (my_pulse_code minavail) self cs) ≡ all_got vs)
      × Counts 0 vs t.notify_count
unfolding step
numbers_shown minavail self rcvid scoid {t = u} {cs} (next {t} {here} {rest} e r) quiet =
    let code = my_pulse_code minavail in
    let serving : IsServing self t = ground (arith, e) in
    let none_yet : (t.notify_count ≡ 0) × (here ≡ []) = ground (arith, e) in
    let (counts, same) = quiet_run code self r quiet serving in
    (
      values rest,
      ap (λ l. loop minavail (arriving code self (l ++ rest))) none_yet.1
          ∙ ap (loop minavail) same
          ∙ loop-pulses minavail (values rest),
      subst (λ n. Counts n (values rest) u.notify_count) none_yet.0 counts,
    )
