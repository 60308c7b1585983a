-- ===== src/Shm/Server/Range.antt =====
-- The test of a range in src/24.lab_shm_qnx_server.c and src/27.orange_problem_2_server.c, which adds
-- unsigned ints, against the addition of numbers.
use qnx_box.Prelude.{
  ℕ, ◌+◌, ◌^◌, ◌≤◌, ◌<◌, ◌≡◌, List, [], ◌∷◌, arith, ltb, if◌then◌else◌, length, ap, ◌∙◌, not,
  if-false, eq→==,
}
use qnx_box.Shm.World.{ebadmsg, changed_reply, print_from, copy_to, error, Call}
use qnx_box.Shm.Create.{Os}
use qnx_box.Shm.Server.{
  Server, Message, max_size, is_bad_range, changed_shm, reply_or_error, resp_offset,
}

-- Up to 64 KiB nothing is lost by the wrap-around: the three tests refuse exactly the ranges that end
-- behind the size.
pub is_bad_range_lem :
    (size off n : ℕ)
    → size ≤ max_size
    → off < 2 ^ 32
    → n < 2 ^ 32
    → is_bad_range size off n ≡ ltb size (off + n)
unfolding is_bad_range
is_bad_range_lem size off n small h k = ground (arith, small, h, k)

-- What a server with numbers that do not wrap would do on a range of its client's.
abbrev pub exact_changed : List ℕ → Os → Server → Message → Server × List Call
exact_changed resp os s m =
    if ltb s.shm_memory_size (m.at4 + m.at8) then (s, error m.rcvid ebadmsg ∷ []) else (
      s,
      print_from s.shm_ptr m.at4 m.at8
          ∷ copy_to s.shm_ptr resp_offset resp
          ∷ reply_or_error os m.rcvid (changed_reply resp_offset (length resp)),
    )

-- For the client's own messages, whatever their two unsigned ints are, the server with at most 64 KiB
-- does what exact arithmetic would have it do: a range is served exactly if it ends in the memory.
pub changed_shm-exact :
    (resp : List ℕ) (os : Os) (s : Server) (m : Message)
    → m.scoid ≡ s.client_scoid
    → s.shm_memory_size ≤ max_size
    → m.at4 < 2 ^ 32
    → m.at8 < 2 ^ 32
    → changed_shm resp os s m ≡ exact_changed resp os s m
unfolding changed_shm
changed_shm-exact resp os s m same small h k =
    let test = is_bad_range_lem s.shm_memory_size m.at4 m.at8 small h k in
    if-false _ _ (ap not (eq→== m.scoid s.client_scoid same))
    ∙ ap
        (λ b. if b then (s, error m.rcvid ebadmsg ∷ []) else (
          s,
          print_from s.shm_ptr m.at4 m.at8
              ∷ copy_to s.shm_ptr resp_offset resp
              ∷ reply_or_error os m.rcvid (changed_reply resp_offset (length resp)),
        ))
        test
