-- ===== src/Shm/Ending.antt =====
-- What is left in the server of src/24.lab_shm_qnx_server.c when its client has ended, however it ended.
use qnx_box.Prelude.{
  ℕ, ◌+◌, ◌≡◌, refl, Bool, true, false, none, some, List, if◌then◌else◌, length, arith, ◌≢◌, ◌⊎◌,
  inl, inr, update, Bool-cases, Option-cases, ◌==◌, ltb, ◌&&◌, not,
}
use qnx_box.Shm.World.{World, Call, replay, replay-append, at}
use qnx_box.Shm.Contents.{write_at}
use qnx_box.Shm.Create.{Os, create_shared_memory}
use qnx_box.Shm.Create.Resources.{AreFresh, create_ok, create_failed}
use qnx_box.Shm.Server.{
  Server, Message, on_message, on_pulse, get_shm, changed_shm, release_shm, is_bad_range, u32,
  max_size,
}
use qnx_box.Shm.Server.Safety.{reply-replay}
use qnx_box.Shm.Client.{
  Outcomes, Session, sent, replied, after_get, after_changed, talk, disconnected,
}

-- The mappings as they were in the world `v`, and one more.
pub record HasMore (v w : World) (s : Server) : Type 0 where
  pub addr : ℕ
  pub ptr : s.shm_ptr ≡ at addr
  pub fresh : v.size_at addr ≡ none
  pub sizes : (b : ℕ) → w.size_at b ≡ update v.size_at addr (some s.shm_memory_size) b

-- The server has no client and the mappings of `v`, or the client `scoid` with one more.
abbrev pub Owned : ℕ → World → World → Server → Type 0
Owned scoid v w s =
    ((s.client_scoid ≡ 0) × ((b : ℕ) → w.size_at b ≡ v.size_at b))
    ⊎ ((s.client_scoid ≡ scoid) × HasMore v w s)

module _ (scoid : ℕ) (ne : scoid ≢ 0) (v : World) where
  get_shm-Owned :
      (os : Os) (s : Server) (m : Message)
      → m.scoid ≡ scoid
      → s.client_scoid ≡ 0
      → AreFresh v os
      → Owned scoid v (replay v (get_shm os s m).1) (get_shm os s m).0
  unfolding get_shm
  get_shm-Owned os s m same idle fresh =
      let c = create_shared_memory os m.at4 s.shm_ptr s.mem_handle in
      elim (Bool-cases (ltb max_size m.at4)) [
        | inl large ↦ rw large (inl (idle, λ b. refl))
        | inr small ↦ rw small (elim (Bool-cases c.ok) [
          | inr failed ↦
              rw (failed, replay-append v c.calls)
                (inl (idle, (create_failed os m.at4 s.shm_ptr s.mem_handle v fresh failed).0))
          | inl made ↦
              let (a, p, free, sizes, _) = create_ok os m.at4 s.shm_ptr s.mem_handle v fresh made in
              rw (made, replay-append v c.calls, reply-replay _ os m.rcvid _)
                (inr (same, record { addr = a; ptr = p; fresh = free; sizes = sizes }))
        ])
      ]

  changed_shm-Owned :
      (resp : List ℕ) (os : Os) (w : World) (s : Server) (m : Message)
      → Owned scoid v w s
      → Owned scoid v (replay w (changed_shm resp os s m).1) (changed_shm resp os s m).0
  unfolding changed_shm
  changed_shm-Owned resp os w s m owned = elim (Bool-cases (m.scoid == s.client_scoid)) [
    | inr other ↦ rw other owned
    | inl client ↦ rw client (elim (Bool-cases (is_bad_range s.shm_memory_size m.at4 m.at8)) [
      | inl bad ↦ rw bad owned
      | inr good ↦ rw (good, reply-replay w os m.rcvid _) owned
    ])
  ]

  release_shm-Owned :
      (os : Os) (w : World) (s : Server) (m : Message)
      → m.scoid ≡ scoid
      → Owned scoid v w s
      → Owned scoid v (replay w (release_shm os s m).1) (release_shm os s m).0
  unfolding release_shm
  release_shm-Owned os w s m same (inl (idle, sizes)) =
      inl (ground (arith, idle), ground (arith, sizes))
  release_shm-Owned os w s m same (inr (client, more)) = inl (
    ground (arith, client, same),
    λ b. ground (arith, client, same, more.sizes b, more.fresh, more.ptr),
  )

  on_pulse-idle :
      (w : World) (s : Server)
      → Owned scoid v w s
      → ((on_pulse s true scoid).0.client_scoid ≡ 0)
        × ((b : ℕ) → (replay w (on_pulse s true scoid).1).size_at b ≡ v.size_at b)
  unfolding on_pulse
  on_pulse-idle w s (inl (idle, same)) = (ground (arith, idle), λ b. ground (arith, idle, same b))
  on_pulse-idle w s (inr (client, more)) =
      (ground (arith, client), λ b. ground (arith, client, more.sizes b, more.fresh, more.ptr))

  module _ (rcvid pid io_max : ℕ) (resp : List ℕ) where
    -- A round that the client calls for.
    handled :
        (os : Os) (w : World) (s : Server) (type at4 at8 : ℕ)
        → type ≢ io_max + 200
        → Owned scoid v w s
        → let r = on_message io_max resp os s (sent rcvid scoid pid type at4 at8) in
          Owned scoid v (replay w r.1) r.0
    unfolding on_message
    handled os w s type at4 at8 other owned =
        let m = sent rcvid scoid pid type at4 at8 in
        let no_get : (type == io_max + 200) ≡ false = ground (arith, other) in
        rw no_get (elim (Bool-cases (type == io_max + 201)) [
          | inl changed ↦ rw changed (changed_shm-Owned resp os w s m owned)
          | inr next ↦ rw next (elim (Bool-cases (type == io_max + 202)) [
            | inl release ↦ rw release (release_shm-Owned os w s m refl owned)
            | inr unknown ↦ rw unknown owned
          ])
        ])

    asked :
        (os : Os) (s : Server)
        → s.client_scoid ≡ 0
        → AreFresh v os
        → let r = on_message io_max resp os s (sent rcvid scoid pid (io_max + 200) 8192 0) in
          Owned scoid v (replay v r.1) r.0
    unfolding on_message
    asked os s idle fresh =
        let get : (io_max + 200 == io_max + 200) ≡ true = ground arith in
        rw get (get_shm-Owned os s (sent rcvid scoid pid (io_max + 200) 8192 0) refl idle fresh)

    module _ (o : Outcomes) (msg : List ℕ) where
      abbrev Leaves : World → Session → Type 0
      Leaves w t = Owned scoid v (replay w t.calls) t.server

      after_changed-Leaves :
          (w : World) (copied : List ℕ) (s : Server) (cs : List Call)
          → Owned scoid v (replay w cs) s
          → Leaves w (after_changed rcvid scoid pid io_max resp o msg copied (s, cs))
      after_changed-Leaves w copied s cs owned = elim (Option-cases (replied cs)) [
        | inl failed ↦ rw (after_changed, failed) owned
        | inr (r, got) ↦
            rw (after_changed, got, replay-append w cs)
              (handled o.on_release (replay w cs) s (io_max + 202) 0 0 (omega arith) owned)
      ]

      after_get-Leaves :
          (mem : List ℕ) (s : Server) (cs : List Call)
          → Owned scoid v (replay v cs) s
          → Leaves v (after_get rcvid scoid pid io_max resp o msg mem (s, cs))
      after_get-Leaves mem s cs owned = elim (Option-cases (replied cs)) [
        | inl failed ↦ rw (after_get, failed) owned
        | inr (r, got) ↦
            rw (after_get, got)
              (elim (Bool-cases (o.open_handle_ok && o.map_ok)) [
                | inr none_mapped ↦ rw none_mapped owned
                | inl opens ↦
                    let m = sent rcvid scoid pid (io_max + 201) 20 (u32 (length msg)) in
                    let r = on_message io_max resp o.on_changed s m in
                    rw (opens, replay-append v cs)
                      (after_changed-Leaves (replay v cs) (write_at 20 msg mem) r.0 r.1 (
                        handled o.on_changed (replay v cs) s (io_max + 201) 20 (u32 (length msg))
                          (omega arith) owned))
              ])
      ]

      if-Leaves :
          (b : Bool) (t u : Session) → Leaves v t → Leaves v u → Leaves v (if b then t else u)
      if-Leaves true t u h k = h
      if-Leaves false t u h k = k

      talk-Leaves :
          (mem : List ℕ) (s : Server)
          → s.client_scoid ≡ 0
          → AreFresh v o.on_get
          → Leaves v (talk rcvid scoid pid io_max resp o msg mem s)
      unfolding talk
      talk-Leaves mem s idle fresh =
          let r = on_message io_max resp o.on_get s (sent rcvid scoid pid (io_max + 200) 8192 0) in
          let named = after_get-Leaves mem r.0 r.1 (asked o.on_get s idle fresh) in
          if-Leaves (not o.name_open_ok) _ _ (inl (idle, λ b. refl)) named

      -- Whichever calls of the client and of the server fail, and wherever the client stops: after the
      -- pulse for its connection the server has no client, and its mappings are those that it had before.
      -- The server had no client before, and what mmap gave was not mapped.
      pub disconnected-replay :
          (mem : List ℕ) (s : Server)
          → s.client_scoid ≡ 0
          → AreFresh v o.on_get
          → let t = disconnected rcvid scoid pid io_max resp o msg mem s in
            (t.server.client_scoid ≡ 0) × ((b : ℕ) → (replay v t.calls).size_at b ≡ v.size_at b)
      unfolding disconnected
      disconnected-replay mem s idle fresh =
          let t = talk rcvid scoid pid io_max resp o msg mem s in
          rw (replay-append v t.calls)
            (on_pulse-idle (replay v t.calls) t.server (talk-Leaves mem s idle fresh))
