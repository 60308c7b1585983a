-- ===== src/Shm/Server/Safety.antt =====
-- Memory safety of the server of src/24.lab_shm_qnx_server.c: under which protocol every read and
-- write that it makes through its pointer stays inside the client's mapping.
use mathlib.Core.Path.{subst}
use mathlib.Core.Option.{some-injective}
use qnx_box.Prelude.{
  ℕ, ◌+◌, ◌≤◌, ◌≡◌, ◌≢◌, ◌⊎◌, inl, inr, Bool, true, false, some, List, [], ◌∷◌, ◌++◌, arith, ltb,
  ◌==◌, Bool-cases, Option-cases, length,
}
use qnx_box.Shm.World.{
  at, World, Reply, handle_reply, Call, print_from, copy_to, replay, Inside, AreSafe,
  AreSafe-append, replay-append,
}
use qnx_box.Shm.Create.{Os, create_shared_memory}
use qnx_box.Shm.Create.Resources.{AreFresh, create_ok, create-AreSafe}
use qnx_box.Shm.Server.{
  Server, Message, offset, len, Event, receive_failed, pulse, message, max_size, resp_offset,
  reply_or_error, on_pulse, get_shm, is_bad_range, changed_shm, release_shm, on_message, round,
  serve,
}

-- The server's pointer and size describe a mapping that is in place, of `least` bytes or more.
pub record IsMapped (least : ℕ) (w : World) (s : Server) : Type 0 where
  pub addr : ℕ
  pub ptr : s.shm_ptr ≡ at addr
  pub size : w.size_at addr ≡ some s.shm_memory_size
  pub small : s.shm_memory_size ≤ max_size
  pub room : least ≤ s.shm_memory_size

-- There is no client, or the client has a mapping.
abbrev pub IsConsistent : ℕ → World → Server → Type 0
IsConsistent least w s = (s.client_scoid ≡ 0) ⊎ IsMapped least w s

-- The room that the server's answer needs.
abbrev pub answer_end : List ℕ → ℕ
answer_end resp = resp_offset + length resp

-- A request for memory comes only while there is no client, and asks for `least` bytes or more.
abbrev pub IsPolite : ℕ → ℕ → Server → Event → Type 0
IsPolite io_max least s (message m) =
    (m.scoid ≢ 0) × (m.type ≡ io_max + 200 → (s.client_scoid ≡ 0) × (least ≤ m.at4))
IsPolite io_max least s _ = Unit

-- What a handler's result has to satisfy.
abbrev pub Keeps : ℕ → World → Server × List Call → Type 0
Keeps least w (s, cs) = AreSafe w cs × IsConsistent least (replay w cs) s

module _ (w : World) (os : Os) where
  pub reply-AreSafe : (rcvid : ℕ) (r : Reply) → AreSafe w (reply_or_error os rcvid r)
  reply-AreSafe rcvid r = ground arith

  pub reply-replay : (rcvid : ℕ) (r : Reply) → replay w (reply_or_error os rcvid r) ≡ w
  reply-replay rcvid r = ground arith

-- Up to 64 KiB the unsigned sum cannot wrap, so the three tests are the range check they look like.
pub in_range : (size off n : ℕ) → size ≤ max_size → is_bad_range size off n ≡ false → off + n ≤ size
unfolding is_bad_range
in_range size off n small e = ground arith

pub mapped-Inside :
    (least : ℕ) (w : World) (s : Server) (off n : ℕ)
    → IsMapped least w s
    → off + n ≤ s.shm_memory_size
    → Inside w s.shm_ptr off n
mapped-Inside least w s off n m fits = rw m.ptr (s.shm_memory_size, m.size, fits)

served-Keeps :
    (resp : List ℕ) (w : World) (os : Os) (s : Server) (off n rcvid : ℕ) (r : Reply)
    → IsMapped (answer_end resp) w s
    → off + n ≤ s.shm_memory_size
    → Keeps (answer_end resp) w (
      s,
      print_from s.shm_ptr off n ∷ copy_to s.shm_ptr resp_offset resp ∷ reply_or_error os rcvid r,
    )
served-Keeps resp w os s off n rcvid r m fits = (
  (
    mapped-Inside (answer_end resp) w s off n m fits,
    (
      mapped-Inside (answer_end resp) w s resp_offset (length resp) m m.room,
      reply-AreSafe w os rcvid r,
    ),
  ),
  inr (rw (reply-replay w os rcvid r) m),
)

-- The last branch of `get_shm`: the mapping was made and belongs to the sender from now on.
got_shm-Keeps :
    (least : ℕ) (w : World) (os : Os) (s : Server) (m : Message)
    → let c = create_shared_memory os m.at4 s.shm_ptr s.mem_handle in
      c.ok ≡ true
      → AreFresh w os
      → m.at4 ≤ max_size
      → least ≤ m.at4
      → Keeps least w (
        record {
          client_scoid = m.scoid;
          shm_memory_size = m.at4;
          shm_ptr = c.ptr;
          mem_handle = c.handle;
        },
        c.calls ++ reply_or_error os m.rcvid (handle_reply c.handle),
      )
got_shm-Keeps least w os s m made fresh small room =
    let c = create_shared_memory os m.at4 s.shm_ptr s.mem_handle in
    let (a, p, _, sizes, _) = create_ok os m.at4 s.shm_ptr s.mem_handle w fresh made in
    (
      AreSafe-append w c.calls _ (create-AreSafe os m.at4 s.shm_ptr s.mem_handle w)
          (reply-AreSafe _ os m.rcvid _),
      inr (
          rw (replay-append w c.calls, reply-replay _ os m.rcvid _)
            (record {
              addr = a;
              ptr = p;
              size = ground (arith, sizes a);
              small = small;
              room = room;
            })),
    )

module _ (least : ℕ) (w : World) (os : Os) (s : Server) (ok : IsConsistent least w s) where
  pub on_pulse-Keeps : (d : Bool) (scoid : ℕ) → Keeps least w (on_pulse s d scoid)
  unfolding on_pulse
  on_pulse-Keeps d scoid = ground arith

  release_shm-Keeps : (m : Message) → Keeps least w (release_shm os s m)
  unfolding release_shm
  release_shm-Keeps m = ground arith

  pub get_shm-Keeps :
      (m : Message)
      → AreFresh w os
      → s.client_scoid ≡ 0
      → least ≤ m.at4
      → Keeps least w (get_shm os s m)
  unfolding get_shm
  get_shm-Keeps m fresh idle room =
      let c = create_shared_memory os m.at4 s.shm_ptr s.mem_handle in
      let safe = create-AreSafe os m.at4 s.shm_ptr s.mem_handle w in
      elim (Bool-cases (ltb max_size m.at4)) [
        | inl big ↦ rw big ((tt, tt), inl idle)
        | inr small ↦ rw small (elim (Bool-cases c.ok) [
          | inr failed ↦ rw failed (AreSafe-append w c.calls _ safe (tt, tt), inl idle)
          | inl made ↦ rw made (got_shm-Keeps least w os s m made fresh (ground arith) room)
        ])
      ]

module _ (resp : List ℕ) (w : World) (os : Os) (s : Server)
    (ok : IsConsistent (answer_end resp) w s) where
  changed_shm-Keeps :
      (m : Message) → m.scoid ≢ 0 → Keeps (answer_end resp) w (changed_shm resp os s m)
  unfolding changed_shm
  changed_shm-Keeps m ne = elim (Bool-cases (m.scoid == s.client_scoid)) [
    | inr other ↦ rw other ((tt, tt), ok)
    | inl client ↦
        rw client (elim (Bool-cases (is_bad_range s.shm_memory_size (offset m) (len m))) [
          | inl bad ↦ rw bad ((tt, tt), ok)
          | inr good ↦ rw good (elim ok [
            | inl idle ↦ absurd (ne (ground arith))
            | inr mapped ↦
                served-Keeps resp w os s (offset m) (len m) m.rcvid _ mapped
                  (in_range s.shm_memory_size (offset m) (len m) mapped.small good)
          ])
        ])
  ]

module _ (io_max : ℕ) (resp : List ℕ) where
  on_message-Keeps :
      (w : World) (os : Os) (s : Server) (m : Message)
      → IsConsistent (answer_end resp) w s
      → IsPolite io_max (answer_end resp) s (message m)
      → AreFresh w os
      → Keeps (answer_end resp) w (on_message io_max resp os s m)
  unfolding on_message
  on_message-Keeps w os s m ok polite fresh = elim (Bool-cases (m.type == io_max + 200)) [
    | inl get ↦
        let (idle, room) = polite.1 (ground arith) in
        rw get (get_shm-Keeps (answer_end resp) w os s ok m fresh idle room)
    | inr not_get ↦ rw not_get (elim (Bool-cases (m.type == io_max + 201)) [
      | inl changed ↦ rw changed (changed_shm-Keeps resp w os s ok m polite.0)
      | inr not_changed ↦ rw not_changed (elim (Bool-cases (m.type == io_max + 202)) [
        | inl release ↦ rw release (release_shm-Keeps (answer_end resp) w os s ok m)
        | inr unknown ↦ rw unknown ((tt, tt), ok)
      ])
    ])
  ]

  round-Keeps :
      (w : World) (os : Os) (s : Server) (e : Event)
      → IsConsistent (answer_end resp) w s
      → IsPolite io_max (answer_end resp) s e
      → AreFresh w os
      → (r : Server × List Call) → round io_max resp os s e ≡ some r
      → Keeps (answer_end resp) w r
  unfolding round
  round-Keeps w os s receive_failed ok polite fresh r got = cc
  round-Keeps w os s (pulse d scoid) ok polite fresh r got =
      subst (Keeps (answer_end resp) w) (some-injective _ _ got)
        (on_pulse-Keeps (answer_end resp) w os s ok d scoid)
  round-Keeps w os s (message m) ok polite fresh r got =
      subst (Keeps (answer_end resp) w) (some-injective _ _ got)
        (on_message-Keeps w os s m ok polite fresh)

  -- What the environment does up to the end of the events: it is polite, and gives out fresh
  -- descriptors and addresses.
  abbrev pub IsFair : World → Server → List (Event × Os) → Type 0
  IsFair w s [] = Unit
  IsFair w s ((e, os) ∷ es) =
      IsPolite io_max (answer_end resp) s e
      × AreFresh w os
      × ((r : Server × List Call)
          → round io_max resp os s e ≡ some r
          → IsFair (replay w r.1) r.0 es)

  -- For every sequence of events in which memory is asked for only while there is no client, with
  -- room for the answer, every read and every write that the server makes through its pointer lies
  -- inside a mapping that is in place at that time.
  pub serve-AreSafe :
      (w : World) (s : Server) (es : List (Event × Os))
      → IsConsistent (answer_end resp) w s
      → IsFair w s es
      → AreSafe w (serve io_max resp s es)
  unfolding serve
  serve-AreSafe w s [] ok fair = tt
  serve-AreSafe w s ((e, os) ∷ es) ok (polite, fresh, rest) =
      elim (Option-cases (round io_max resp os s e)) [
        | inl stop ↦ rw (stop, serve) tt
        | inr (r, got) ↦
            let kept = round-Keeps w os s e ok polite fresh r got in
            rw (got, serve)
              (AreSafe-append w r.1 _ kept.0
                (serve-AreSafe (replay w r.1) r.0 es kept.1 (rest r got)))
      ]
