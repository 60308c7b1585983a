-- ===== src/Shm/World.antt =====
-- The system calls that the shared-memory programs make, and the part of the operating system that
-- they act on: the open descriptors and the mappings of the process, with their sizes.
use qnx_box.Prelude.{
  ℕ, ◌+◌, ◌≤◌, ◌≡◌, refl, Bool, true, false, Option, none, some, List, [], ◌∷◌, ◌++◌, update,
  length, ◌==◌, if◌then◌else◌,
}

-- A `char*` into the mapping: not yet assigned, `MAP_FAILED`, or an address that mmap returned.
pub data Ptr : Type 0 where
  unset map_failed : Ptr
  at : ℕ → Ptr

-- The error numbers that the servers name, and `errno` as a failed call left it.
pub data Errno : Type 0 where
  einval eperm ebadmsg enosys : Errno
  errno : ℕ → Errno

-- What a server puts into a reply.
pub data Reply : Type 0 where
  handle_reply : Option ℕ → Reply  -- get_shm_res_t
  changed_reply : (offset len : ℕ) → Reply  -- changed_shm_res_t
  empty_reply : Reply

pub data Call : Type 0 where
  opened : (fd : ℕ) → Call  -- shm_open that gave `fd`
  close : (fd : ℕ) → Call
  mapped : (addr size : ℕ) → Call  -- mmap that gave `addr`
  munmap : Ptr → (size : ℕ) → Call
  print_from : Ptr → (offset len : ℕ) → Call  -- write(STDOUT_FILENO, ptr + offset, len)
  copy_to : Ptr → (offset : ℕ) → List ℕ → Call  -- memcpy(ptr + offset, bytes, len)
  reply : (rcvid : ℕ) → Reply → Call  -- MsgReply
  error : (rcvid : ℕ) → Errno → Call  -- MsgError
  detach : (scoid : ℕ) → Call  -- ConnectDetach

pub record World : Type 0 where
  pub is_open : ℕ → Bool
  pub size_at : ℕ → Option ℕ

-- What is left of a mapping: a length other than the mapping's own does not remove it, and no byte of it
-- can be counted on any more.
abbrev pub unmapped : Option ℕ → ℕ → Option ℕ
unmapped none n = none
unmapped (some m) n = if m == n then none else some 0

abbrev pub after_munmap : World → Ptr → ℕ → World
after_munmap w (at a) n = record w { size_at = update w.size_at a (unmapped (w.size_at a) n) }
after_munmap w _ n = w

abbrev pub apply : World → Call → World
apply w (opened fd) = record w { is_open = update w.is_open fd true }
apply w (close fd) = record w { is_open = update w.is_open fd false }
apply w (mapped a n) = record w { size_at = update w.size_at a (some n) }
apply w (munmap p n) = after_munmap w p n
apply w _ = w

abbrev pub replay : World → List Call → World
replay w [] = w
replay w (c ∷ cs) = replay (apply w c) cs

-- The bytes `offset .. offset + len` behind `p` lie inside a mapping that is in place.
abbrev pub Inside : World → Ptr → ℕ → ℕ → Type 0
Inside w (at a) offset len = (n : ℕ) × (w.size_at a ≡ some n) × (offset + len ≤ n)
Inside w _ offset len = ⊥

abbrev pub IsSafe : World → Call → Type 0
IsSafe w (print_from p offset len) = Inside w p offset len
IsSafe w (copy_to p offset bytes) = Inside w p offset (length bytes)
IsSafe w _ = Unit

-- Every access of a sequence of calls is safe at the time it is made.
abbrev pub AreSafe : World → List Call → Type 0
AreSafe w [] = Unit
AreSafe w (c ∷ cs) = IsSafe w c × AreSafe (apply w c) cs

pub AreSafe-append :
    (w : World) (cs ds : List Call) → AreSafe w cs → AreSafe (replay w cs) ds → AreSafe w (cs ++ ds)
AreSafe-append w [] ds h k = k
AreSafe-append w (c ∷ cs) ds h k = (h.0, AreSafe-append (apply w c) cs ds h.1 k)

pub replay-append : (w : World) (cs ds : List Call) → replay w (cs ++ ds) ≡ replay (replay w cs) ds
replay-append w [] ds = refl
replay-append w (c ∷ cs) ds = replay-append (apply w c) cs ds
