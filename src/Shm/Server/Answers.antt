-- ===== src/Shm/Server/Answers.antt =====
-- What the senders of messages get to see of the server of src/24.lab_shm_qnx_server.c.
use qnx_box.Prelude.{ℕ, ◌+◌, ◌≡◌, ◌≢◌, ◌⊎◌, ◌&&◌, List, [], ◌∷◌, ◌++◌, arith, ◌==◌, if◌then◌else◌}
use qnx_box.Shm.World.{Call, reply, handle_reply, error, eperm, errno}
use qnx_box.Shm.Create.{Os, create_shared_memory}
use qnx_box.Shm.Server.{
  Server, Message, reply_or_error, get_shm, changed_shm, release_shm, on_message,
}

-- 1 for a call that unblocks the sender `rcvid`: MsgError, or a MsgReply that succeeds.
abbrev pub unblocks : Os → ℕ → Call → ℕ
unblocks os rcvid (reply r _) = if os.reply_ok && (r == rcvid) then 1 else 0
unblocks os rcvid (error r _) = if r == rcvid then 1 else 0
unblocks os rcvid _ = 0

unfoldable pub unblocked : Os → ℕ → List Call → ℕ
unblocked os rcvid [] = 0
unblocked os rcvid (c ∷ cs) = unblocks os rcvid c + unblocked os rcvid cs

unblocked-append :
    (os : Os) (rcvid : ℕ) (cs ds : List Call)
    → unblocked os rcvid (cs ++ ds) ≡ unblocked os rcvid cs + unblocked os rcvid ds
unfolding unblocked
unblocked-append os rcvid [] ds = omega arith
unblocked-append os rcvid (c ∷ cs) ds = omega (arith, unblocked-append os rcvid cs ds)

module _ (os : Os) (s : Server) (m : Message) where
  create-silent :
      (n : ℕ) → unblocked os n (create_shared_memory os m.at4 s.shm_ptr s.mem_handle).calls ≡ 0
  unfolding unblocked create_shared_memory
  create-silent n = ground arith

  pub get_shm-unblocked :
      (n : ℕ) → unblocked os n (get_shm os s m).1 ≡ (if m.rcvid == n then 1 else 0)
  unfolding get_shm unblocked
  get_shm-unblocked n =
      let c = create_shared_memory os m.at4 s.shm_ptr s.mem_handle in
      ground (
        arith,
        create-silent n,
        unblocked-append os n c.calls (error m.rcvid (errno os.errno_value) ∷ []),
        unblocked-append os n c.calls (reply_or_error os m.rcvid (handle_reply c.handle)),
      )

  changed_shm-unblocked :
      (resp : List ℕ) (n : ℕ)
      → unblocked os n (changed_shm resp os s m).1 ≡ (if m.rcvid == n then 1 else 0)
  unfolding changed_shm unblocked
  changed_shm-unblocked resp n = ground arith

  release_shm-unblocked :
      (n : ℕ) → unblocked os n (release_shm os s m).1 ≡ (if m.rcvid == n then 1 else 0)
  unfolding release_shm unblocked
  release_shm-unblocked n = ground arith

  -- Whatever the message, the state and the outcomes of the system calls: the sender is unblocked
  -- exactly once, and nobody else is.
  pub on_message-unblocked :
      (io_max : ℕ) (resp : List ℕ) (n : ℕ)
      → unblocked os n (on_message io_max resp os s m).1 ≡ (if m.rcvid == n then 1 else 0)
  unfolding on_message unblocked
  on_message-unblocked io_max resp n =
      ground (arith, get_shm-unblocked n, changed_shm-unblocked resp n, release_shm-unblocked n)

  -- A message of type CHANGED or RELEASE from anybody but the client is answered with EPERM, and
  -- neither changes the state nor touches the memory.
  pub on_message-eperm :
      (io_max : ℕ) (resp : List ℕ)
      → m.scoid ≢ s.client_scoid
      → (m.type ≡ io_max + 201) ⊎ (m.type ≡ io_max + 202)
      → on_message io_max resp os s m ≡ (s, error m.rcvid eperm ∷ [])
  unfolding on_message changed_shm release_shm
  on_message-eperm io_max resp other t = ground arith
