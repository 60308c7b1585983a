-- ===== src/Events/Counting.antt =====
-- The pulses that `notify_thread` of src/22.lab_events_server.c delivers.
use mathlib.Core.Path.{subst}
use qnx_box.Prelude.{
  ℕ, suc, ◌≡◌, refl, ap, ◌∙◌, sym, true, false, some, List, [], ◌∷◌, ◌++◌, arith, All, ◌⊎◌,
}
use qnx_box.Events.{
  State, Call, detach, reply, error, unblock_error, deliver, deliver_failed, Op, disconnect,
  unblock, other_pulse, request, other_message, answer, notify, step, Run, stop, next,
}

-- The values that are delivered.
abbrev pub values : List Call → List ℕ
values [] = []
values (deliver rcvid e ∷ cs) = e.value ∷ values cs
values (deliver_failed _ _ ∷ cs) = values cs
values (reply _ ∷ cs) = values cs
values (error _ ∷ cs) = values cs
values (detach _ ∷ cs) = values cs
values (unblock_error _ ∷ cs) = values cs

-- The values are n, n + 1, …, up to the number before m.
abbrev pub Counts : ℕ → List ℕ → ℕ → Type 0
Counts n [] m = n ≡ m
Counts n (v ∷ vs) m = (v ≡ n) × Counts (suc n) vs m

pub Counts-append :
    (n m k : ℕ) (vs ws : List ℕ) → Counts n vs m → Counts m ws k → Counts n (vs ++ ws) k
Counts-append n m k [] ws h g = subst (λ x. Counts x ws k) (sym h) g
Counts-append n m k (v ∷ vs) ws (e, h) g = (e, Counts-append (suc n) m k vs ws h g)

-- No disconnect, no request for an event that is not updateable, and no delivery that fails.
abbrev pub KeepsCounting : Op → Type 0
KeepsCounting (disconnect _) = ⊥
KeepsCounting (unblock _) = Unit
KeepsCounting other_pulse = Unit
KeepsCounting (request rcvid scoid event v) = event.is_updateable ≡ true
KeepsCounting (other_message _) = Unit
KeepsCounting answer = Unit
KeepsCounting (notify is_delivered) = is_delivered ≡ true

-- The event of the client, if there is one, is updateable.
abbrev pub IsCounting : State → Type 0
IsCounting s = (s.save_rcvid ≡ 0) ⊎ (s.save_event.is_updateable ≡ true)

step-Counts :
    (op : Op) (s t : State) (here : List Call)
    → KeepsCounting op
    → IsCounting s
    → step op s ≡ some (t, here)
    → IsCounting t × Counts s.notify_count (values here) t.notify_count
unfolding step
step-Counts (disconnect scoid) s t here k c e = absurd k
step-Counts (unblock rcvid) s t here k c e = (ground arith, ground arith)
step-Counts other_pulse s t here k c e = (ground arith, ground arith)
step-Counts (request rcvid scoid event true) s t here k c e = (ground arith, ground arith)
step-Counts (request rcvid scoid event false) s t here k c e = (ground arith, ground arith)
step-Counts (other_message rcvid) s t here k c e = (ground arith, ground arith)
step-Counts answer s t here k c e = (ground arith, ground arith)
step-Counts (notify false) s t here k c e = absurd (ground arith)
step-Counts (notify true) s t here k c e = (ground arith, ground arith)

pub values-append : (cs ds : List Call) → values (cs ++ ds) ≡ values cs ++ values ds
values-append [] ds = refl
values-append (deliver rcvid e ∷ cs) ds = ap (λ l. e.value ∷ l) (values-append cs ds)
values-append (deliver_failed _ _ ∷ cs) ds = values-append cs ds
values-append (reply _ ∷ cs) ds = values-append cs ds
values-append (error _ ∷ cs) ds = values-append cs ds
values-append (detach _ ∷ cs) ds = values-append cs ds
values-append (unblock_error _ ∷ cs) ds = values-append cs ds

-- As long as no client disconnects, no delivery fails, and all events are updateable, the pulses carry consecutive
-- numbers from `notify_count` on, whoever they go to: a client that registers later does not start
-- at 0.
pub consecutive_values :
    {ops : List Op} {s t : State} {cs : List Call}
    → Run ops s cs t
    → All KeepsCounting ops
    → IsCounting s
    → Counts s.notify_count (values cs) t.notify_count
consecutive_values stop k c = refl
consecutive_values (next {op} {ops} {s} {t} {u} {here} {rest} e r) (k, ks) c =
    let (c', v) = step-Counts op s t here k c e in
    subst (λ l. Counts s.notify_count l u.notify_count) (sym (values-append here rest))
      (Counts-append s.notify_count t.notify_count u.notify_count (values here) (values rest) v
        (consecutive_values r ks c'))

-- Not an accepted request.
abbrev pub IsNotRegistering : Op → Type 0
IsNotRegistering (disconnect _) = Unit
IsNotRegistering (unblock _) = Unit
IsNotRegistering other_pulse = Unit
IsNotRegistering (request rcvid scoid event v) = v ≡ false
IsNotRegistering (other_message _) = Unit
IsNotRegistering answer = Unit
IsNotRegistering (notify _) = Unit

abbrev pub HasNobody : State → Type 0
HasNobody s = (s.save_rcvid ≡ 0) × (s.notify_count ≡ 0)

step-silent :
    (op : Op) (s t : State) (here : List Call)
    → IsNotRegistering op
    → HasNobody s
    → step op s ≡ some (t, here)
    → HasNobody t × (values here ≡ [])
unfolding step
step-silent (disconnect scoid) s t here k c e = (ground arith, ground arith)
step-silent (unblock rcvid) s t here k c e = (ground arith, ground arith)
step-silent other_pulse s t here k c e = (ground arith, ground arith)
step-silent (request rcvid scoid event true) s t here k c e = absurd (ground arith)
step-silent (request rcvid scoid event false) s t here k c e = (ground arith, ground arith)
step-silent (other_message rcvid) s t here k c e = (ground arith, ground arith)
step-silent answer s t here k c e = (ground arith, ground arith)
step-silent (notify true) s t here k c e = (ground arith, ground arith)
step-silent (notify false) s t here k c e = (ground arith, ground arith)

silent :
    {ops : List Op} {s t : State} {cs : List Call}
    → Run ops s cs t
    → All IsNotRegistering ops
    → HasNobody s
    → HasNobody t × (values cs ≡ [])
silent stop k c = (c, refl)
silent (next {op} {ops} {s} {t} {u} {here} {rest} e r) (k, ks) c =
    let (c', v) = step-silent op s t here k c e in
    let (c'', vs) = silent r ks c' in (c'', values-append here rest ∙ rw (v, vs))

disconnect-HasNobody :
    (s t : State) (here : List Call)
    → step (disconnect s.save_scoid) s ≡ some (t, here)
    → HasNobody t × (values here ≡ [])
unfolding step
disconnect-HasNobody s t here e = (ground arith, ground arith)

-- After the registered client's disconnect nothing is delivered until a request is accepted, and the
-- count is 0 then.
pub disconnect-silences :
    {ops : List Op} {s t : State} {cs : List Call}
    → Run (disconnect s.save_scoid ∷ ops) s cs t
    → All IsNotRegistering ops
    → (values cs ≡ []) × (t.notify_count ≡ 0)
disconnect-silences (next {op} {ops} {s} {t} {u} {here} {rest} e r) k =
    let (c, v) = disconnect-HasNobody s t here e in
    let (c', vs) = silent r k c in (values-append here rest ∙ rw (v, vs), c'.1)
