-- ===== src/Shm/Create/Resources.antt =====
-- What `create_shared_memory` leaves behind on each of its paths: descriptors and mappings.
use qnx_box.Prelude.{ℕ, ◌≡◌, true, false, Option, none, some, arith, update}
use qnx_box.Shm.World.{Ptr, at, World, replay, AreSafe}
use qnx_box.Shm.Create.{Os, Created, create_shared_memory}

-- A descriptor that shm_open gives is not open yet, and an address that mmap gives is not mapped.
pub record AreFresh (w : World) (os : Os) : Type 0 where
  pub fd : (n : ℕ) → os.open_fd ≡ some n → w.is_open n ≡ false
  pub addr : (a : ℕ) → os.map_addr ≡ some a → w.size_at a ≡ none

module _ (os : Os) (nbytes : ℕ) (ptr : Ptr) (handle : Option ℕ) (w : World)
    (h : AreFresh w os) where
  abbrev made : Created
  made = create_shared_memory os nbytes ptr handle

  ok-open : made.ok ≡ true → (n : ℕ) × (os.open_fd ≡ some n)
  unfolding create_shared_memory
  ok-open e = ground arith

  ok-map : made.ok ≡ true → (a : ℕ) × (os.map_addr ≡ some a)
  unfolding create_shared_memory
  ok-map e = ground arith

  -- When the function returns 0, its pointer is a new mapping of `nbytes` bytes, every other mapping
  -- is as before, and so is every descriptor: the one it opened is closed.
  pub create_ok :
      made.ok ≡ true
      → (a : ℕ) × (made.ptr ≡ at a)
        × (w.size_at a ≡ none)
        × ((b : ℕ) → (replay w made.calls).size_at b ≡ update w.size_at a (some nbytes) b)
        × ((n : ℕ) → (replay w made.calls).is_open n ≡ w.is_open n)
  unfolding create_shared_memory
  create_ok e =
      let (a, p) = ok-map e in
      let (n, o) = ok-open e in
      (
        a,
        ground arith,
        ground (arith, h.addr a),
        (λ b. ground (arith, h.addr a)),
        (λ m. ground (arith, h.fd n)),
      )

  -- When it returns -1, no mapping of it is left, and unless ftruncate failed no descriptor is.
  pub create_failed :
      made.ok ≡ false
      → ((b : ℕ) → (replay w made.calls).size_at b ≡ w.size_at b)
        × (os.truncate_ok ≡ true → (n : ℕ) → (replay w made.calls).is_open n ≡ w.is_open n)
  unfolding create_shared_memory
  create_failed e = ((λ b. ground (arith, h.addr b)), λ t n. ground (arith, h.fd n))

  -- When ftruncate fails, the descriptor that shm_open gave stays open and the function returns -1.
  pub create_leak :
      (n : ℕ)
      → os.open_fd ≡ some n
      → os.truncate_ok ≡ false
      → (made.ok ≡ false) × (w.is_open n ≡ false) × ((replay w made.calls).is_open n ≡ true)
  unfolding create_shared_memory
  create_leak n o t = ground (arith, h.fd n)

-- The function itself reads and writes nothing through a pointer.
pub create-AreSafe :
    (os : Os) (nbytes : ℕ) (ptr : Ptr) (handle : Option ℕ) (w : World)
    → AreSafe w (create_shared_memory os nbytes ptr handle).calls
unfolding create_shared_memory
create-AreSafe os nbytes ptr handle w = ground arith
