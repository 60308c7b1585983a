-- ===== src/LineShm/Server/Safety.antt =====
-- Memory safety of the server of src/27.orange_problem_2_server.c, and its answers.
use mathlib.Core.Path.{subst}
use mathlib.Core.Option.{some-injective}
use qnx_box.Prelude.{
  ℕ, ◌+◌, ◌≡◌, ◌≢◌, inl, inr, some, List, [], ◌∷◌, arith, ◌==◌, Bool-cases, Option-cases,
  if◌then◌else◌,
}
use qnx_box.Shm.World.{World, Call, replay, AreSafe, AreSafe-append, empty_reply}
use qnx_box.Shm.Create.{Os}
use qnx_box.Shm.Create.Resources.{AreFresh}
use qnx_box.Shm.Server.{
  Server, Message, offset, len, Event, receive_failed, pulse, message, is_bad_range,
}
use qnx_box.Shm.Server.Safety.{
  IsConsistent, IsPolite, Keeps, reply-AreSafe, reply-replay, in_range, mapped-Inside,
  on_pulse-Keeps, get_shm-Keeps,
}
use qnx_box.Shm.Server.Answers.{unblocked, get_shm-unblocked}
use qnx_box.LineShm.Server.{changed_shm, on_message, round, serve}

module _ (w : World) (os : Os) (s : Server) (ok : IsConsistent 0 w s) where
  changed_shm-Keeps : (m : Message) → m.scoid ≢ 0 → Keeps 0 w (changed_shm os s m)
  unfolding changed_shm
  changed_shm-Keeps m ne = elim (Bool-cases (m.scoid == s.client_scoid)) [
    | inr other ↦ rw other ((tt, tt), ok)
    | inl client ↦
        rw client (elim (Bool-cases (is_bad_range s.shm_memory_size (offset m) (len m))) [
          | inl bad ↦ rw bad ((tt, tt), ok)
          | inr good ↦ rw good (elim ok [
            | inl idle ↦ absurd (ne (ground arith))
            | inr mapped ↦ (
              (
                mapped-Inside 0 w s (offset m) (len m) mapped
                    (in_range s.shm_memory_size (offset m) (len m) mapped.small good),
                reply-AreSafe w os m.rcvid empty_reply,
              ),
              inr (rw (reply-replay w os m.rcvid empty_reply) mapped),
            )
          ])
        ])
  ]

module _ (io_max : ℕ) where
  on_message-Keeps :
      (w : World) (os : Os) (s : Server) (m : Message)
      → IsConsistent 0 w s
      → IsPolite io_max 0 s (message m)
      → AreFresh w os
      → Keeps 0 w (on_message io_max os s m)
  unfolding on_message
  on_message-Keeps w os s m ok polite fresh = elim (Bool-cases (m.type == io_max + 200)) [
    | inl get ↦
        let (idle, room) = polite.1 (ground arith) in
        rw get (get_shm-Keeps 0 w os s ok m fresh idle room)
    | inr not_get ↦ rw not_get (elim (Bool-cases (m.type == io_max + 201)) [
      | inl changed ↦ rw changed (changed_shm-Keeps w os s ok m polite.0)
      | inr unknown ↦ rw unknown ((tt, tt), ok)
    ])
  ]

  round-Keeps :
      (w : World) (os : Os) (s : Server) (e : Event)
      → IsConsistent 0 w s
      → IsPolite io_max 0 s e
      → AreFresh w os
      → (r : Server × List Call) → round io_max os s e ≡ some r
      → Keeps 0 w r
  unfolding round
  round-Keeps w os s receive_failed ok polite fresh r got = cc
  round-Keeps w os s (pulse d scoid) ok polite fresh r got =
      subst (Keeps 0 w) (some-injective _ _ got) (on_pulse-Keeps 0 w os s ok d scoid)
  round-Keeps w os s (message m) ok polite fresh r got =
      subst (Keeps 0 w) (some-injective _ _ got) (on_message-Keeps w os s m ok polite fresh)

  -- What the environment does up to the end of the events: memory is asked for only while there is no
  -- client, and descriptors and addresses are fresh.
  abbrev pub IsFair : World → Server → List (Event × Os) → Type 0
  IsFair w s [] = Unit
  IsFair w s ((e, os) ∷ es) =
      IsPolite io_max 0 s e
      × AreFresh w os
      × ((r : Server × List Call) → round io_max os s e ≡ some r → IsFair (replay w r.1) r.0 es)

  -- For every sequence of events in which memory is asked for only while there is no client, of
  -- whatever size, every read that the server makes through its pointer lies inside a mapping that is in
  -- place at that time.
  pub lines-AreSafe :
      (w : World) (s : Server) (es : List (Event × Os))
      → IsConsistent 0 w s
      → IsFair w s es
      → AreSafe w (serve io_max s es)
  unfolding serve
  lines-AreSafe w s [] ok fair = tt
  lines-AreSafe w s ((e, os) ∷ es) ok (polite, fresh, rest) =
      elim (Option-cases (round io_max os s e)) [
        | inl stop ↦ rw (stop, serve) tt
        | inr (r, got) ↦
            let kept = round-Keeps w os s e ok polite fresh r got in
            rw (got, serve)
              (AreSafe-append w r.1 _ kept.0
                (lines-AreSafe (replay w r.1) r.0 es kept.1 (rest r got)))
      ]

  -- Whatever the message, the state and the outcomes of the system calls: the sender is unblocked
  -- exactly once, and nobody else is.
  pub line_message-unblocked :
      (os : Os) (s : Server) (m : Message) (n : ℕ)
      → unblocked os n (on_message io_max os s m).1 ≡ (if m.rcvid == n then 1 else 0)
  unfolding on_message changed_shm unblocked
  line_message-unblocked os s m n = ground (arith, get_shm-unblocked os s m n)
