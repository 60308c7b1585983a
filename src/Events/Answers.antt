-- ===== src/Events/Answers.antt =====
-- The answers of the event server of src/22.lab_events_server.c.
use mathlib.Core.List.{append_assoc, append-nil}
use qnx_box.Prelude.{
  ℕ, ◌≡◌, refl, ap, ◌∙◌, sym, true, false, Option, none, some, List, [], ◌∷◌, ◌++◌, arith,
}
use qnx_box.Events.{
  State, Call, detach, reply, error, unblock_error, deliver, deliver_failed, Op, disconnect,
  unblock, other_pulse, request, other_message, answer, notify, step, Run, stop, next,
}

-- Who is to be answered: the senders of the messages, and the client of an unblock pulse.
abbrev pub received : List Op → List ℕ
received [] = []
received (request rcvid scoid event v ∷ ops) = rcvid ∷ received ops
received (other_message rcvid ∷ ops) = rcvid ∷ received ops
received (disconnect _ ∷ ops) = received ops
received (unblock rcvid ∷ ops) = rcvid ∷ received ops
received (other_pulse ∷ ops) = received ops
received (answer ∷ ops) = received ops
received (notify _ ∷ ops) = received ops

-- For whom MsgReply or MsgError is called, whether or not the call succeeds.
abbrev pub answered : List Call → List ℕ
answered [] = []
answered (reply rcvid ∷ cs) = rcvid ∷ answered cs
answered (error rcvid ∷ cs) = rcvid ∷ answered cs
answered (detach _ ∷ cs) = answered cs
answered (unblock_error rcvid ∷ cs) = rcvid ∷ answered cs
answered (deliver _ _ ∷ cs) = answered cs
answered (deliver_failed _ _ ∷ cs) = answered cs

abbrev pub waiting : Option ℕ → List ℕ
waiting none = []
waiting (some rcvid) = rcvid ∷ []

-- One operation.
step-answered :
    (op : Op) (s t : State) (here : List Call)
    → step op s ≡ some (t, here)
    → waiting s.pending ++ received (op ∷ []) ≡ answered here ++ waiting t.pending
unfolding step
step-answered (disconnect scoid) s t here e = ground arith
step-answered (unblock rcvid) s t here e = ground arith
step-answered other_pulse s t here e = ground arith
step-answered (request rcvid scoid event true) s t here e = ground arith
step-answered (request rcvid scoid event false) s t here e = ground arith
step-answered (other_message rcvid) s t here e = ground arith
step-answered answer s t here e = ground arith
step-answered (notify true) s t here e = ground arith
step-answered (notify false) s t here e = ground arith

received-cons : (op : Op) (ops : List Op) → received (op ∷ ops) ≡ received (op ∷ []) ++ received ops
received-cons (disconnect _) ops = refl
received-cons (unblock _) ops = refl
received-cons other_pulse ops = refl
received-cons (request _ _ _ _) ops = refl
received-cons (other_message _) ops = refl
received-cons answer ops = refl
received-cons (notify _) ops = refl

answered-append : (cs ds : List Call) → answered (cs ++ ds) ≡ answered cs ++ answered ds
answered-append [] ds = refl
answered-append (reply rcvid ∷ cs) ds = ap (λ l. rcvid ∷ l) (answered-append cs ds)
answered-append (error rcvid ∷ cs) ds = ap (λ l. rcvid ∷ l) (answered-append cs ds)
answered-append (detach _ ∷ cs) ds = answered-append cs ds
answered-append (unblock_error rcvid ∷ cs) ds = ap (λ l. rcvid ∷ l) (answered-append cs ds)
answered-append (deliver _ _ ∷ cs) ds = answered-append cs ds
answered-append (deliver_failed _ _ ∷ cs) ds = answered-append cs ds

-- For every message and for every unblock pulse MsgReply or MsgError is called exactly once, for its client,
-- in the order in which they come, whether or not the call succeeds; only the last one may still wait for
-- it. It is called for nobody else, and not for any other pulse.
pub all_answered :
    {ops : List Op} {s t : State} {cs : List Call}
    → Run ops s cs t
    → waiting s.pending ++ received ops ≡ answered cs ++ waiting t.pending
all_answered {s} stop = append-nil (waiting s.pending)
all_answered (next {op} {ops} {s} {t} {u} {here} {rest} e r) =
    ap (λ l. waiting s.pending ++ l) (received-cons op ops)
    ∙ sym (append_assoc (waiting s.pending) (received (op ∷ [])) (received ops))
    ∙ ap (λ l. l ++ received ops) (step-answered op s t here e)
    ∙ append_assoc (answered here) (waiting t.pending) (received ops)
    ∙ ap (λ l. answered here ++ l) (all_answered r)
    ∙ sym (append_assoc (answered here) (answered rest) (waiting u.pending))
    ∙ ap (λ l. l ++ waiting u.pending) (sym (answered-append here rest))
