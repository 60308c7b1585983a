-- ===== src/Shm/Server/Flaws.antt =====
-- Accesses of the server of src/24.lab_shm_qnx_server.c outside the client's mapping.
use qnx_box.Prelude.{
  ℕ, ◌+◌, ◌^◌, ◌≤◌, ◌<◌, ◌≡◌, true, false, some, none, List, [], ◌∷◌, arith, length,
}
use qnx_box.Shm.World.{at, World, AreSafe}
use qnx_box.Shm.Create.{Os, create_shared_memory}
use qnx_box.Shm.Server.{
  Server, Message, max_size, resp_offset, message, is_bad_range, get_shm, changed_shm, on_message,
  round, serve,
}

module _ (io_max : ℕ) (resp : List ℕ) (w : World) (s : Server) where
  -- A request for more than 64 KiB, from any sender, is answered with EINVAL but its size stays
  -- behind as `shm_memory_size`. The next CHANGED of the client whose mapping has `n` bytes is
  -- served up to that size, so a range that ends behind the mapping is read.
  pub oversized_get-unsafe :
      (a n : ℕ) (os os' : Os) (g c : Message)
      → s.shm_ptr ≡ at a
      → w.size_at a ≡ some n
      → g.type ≡ io_max + 200
      → max_size < g.at4
      → g.at4 < 2 ^ 32
      → c.type ≡ io_max + 201
      → c.scoid ≡ s.client_scoid
      → n < c.at4 + c.at8
      → c.at4 + c.at8 ≤ g.at4
      → ¬ AreSafe w (serve io_max resp s ((message g, os) ∷ (message c, os') ∷ []))
  unfolding serve round on_message get_shm changed_shm
  oversized_get-unsafe a n os os' g c p e tg big fits tc client out below safe = ground arith

  -- The answer is copied to offset 4126 whatever the size of the mapping: a client whose mapping
  -- ends before the end of the answer makes the server write behind it.
  pub small_mapping-unsafe :
      (a : ℕ) (os : Os) (c : Message)
      → s.shm_ptr ≡ at a
      → w.size_at a ≡ some s.shm_memory_size
      → s.shm_memory_size < resp_offset + length resp
      → c.type ≡ io_max + 201
      → c.scoid ≡ s.client_scoid
      → is_bad_range s.shm_memory_size c.at4 c.at8 ≡ false
      → ¬ AreSafe w (on_message io_max resp os s c).1
  unfolding on_message changed_shm
  small_mapping-unsafe a os c p e small tc client good safe = ground arith

  -- When a second request of the client fails in mmap, the client stays registered while the
  -- pointer becomes MAP_FAILED: the next CHANGED that passes the range check goes through it.
  pub failed_get-unsafe :
      (fd : ℕ) (os os' : Os) (g c : Message)
      → g.type ≡ io_max + 200
      → g.at4 ≤ max_size
      → os.open_fd ≡ some fd
      → os.truncate_ok ≡ true
      → os.map_addr ≡ none
      → c.type ≡ io_max + 201
      → c.scoid ≡ s.client_scoid
      → is_bad_range g.at4 c.at4 c.at8 ≡ false
      → ¬ AreSafe w (serve io_max resp s ((message g, os) ∷ (message c, os') ∷ []))
  unfolding serve round on_message get_shm changed_shm create_shared_memory
  failed_get-unsafe fd os os' g c tg small o t m tc client good safe = ground arith
