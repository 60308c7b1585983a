-- ===== src/ResourceManager.antt =====
-- The handlers of src/30.lab_resource_manager.c. The numbers of the system headers and the outcomes of
-- the calls are inputs. A handler gives what it returns, the calls in their order, and the flags of the
-- device's attributes that it sets.
pub mod Loop
pub mod Replies
mod Tests
use qnx_box.Prelude.{
  ℕ, ◌+◌, Bool, true, false, not, Option, none, some, List, [], ◌∷◌, ◌++◌, ltb, ◌==◌, if◌then◌else◌,
  length, min,
}
use qnx_box.CString.{codes, take}

-- `msg->i`, with the test that `xtype` is _IO_XTYPE_NONE under its mask
pub record Request : Type 0 where
  pub is_plain : Bool
  pub nbytes : ℕ

-- The outcomes: the status of the verification, whether malloc succeeds, the bytes that
-- resmgr_msgget copies, or its failure, what write returns, or its failure, and errno after a failure.
pub record Os : Type 0 where
  pub verify : ℕ
  pub malloc_ok : Bool
  pub message : Option (List ℕ)
  pub written : Option ℕ
  pub errno_value : ℕ

pub data Call : Type 0 where
  reply : (status : ℕ) → (bytes : List ℕ) → Call
  malloc : ℕ → Call
  free : Call
  msgget : (nbytes : ℕ) → Call
  write : List ℕ → Call

pub data Return : Type 0 where
  no_reply : Return  -- _RESMGR_NOREPLY
  errno : ℕ → Return  -- the library answers the client with it

-- The flags IOFUNC_ATTR_ATIME, and IOFUNC_ATTR_MTIME with IOFUNC_ATTR_CTIME.
pub record Flags : Type 0 where
  pub atime : Bool
  pub mtime : Bool

abbrev pub enosys : ℕ
enosys = 89

abbrev pub enomem : ℕ
enomem = 12

-- `char data[] = "hello"`, with its NUL
abbrev pub device_data : List ℕ
device_data = codes "hello" ++ 0 ∷ []

unfoldable pub io_read : Os → Request → Flags → Return × List Call × Flags
io_read os q f =
    let nb = min (length device_data) q.nbytes in
    if not (os.verify == 0)
    then (errno os.verify, [], f)
    else if not q.is_plain
    then (errno enosys, [], f)
    else (
      no_reply,
      reply nb (take nb device_data) ∷ [],
      (if ltb 0 nb then record f { atime = true } else f),
    )

-- From the write on.
abbrev pub after_write : Os → Flags → List Call → ℕ → Option ℕ → Return × List Call × Flags
after_write os f cs nb none = (errno os.errno_value, cs ++ free ∷ [], f)
after_write os f cs nb (some n) =
    (no_reply, cs ++ free ∷ reply nb [] ∷ [], (if ltb 0 nb then record f { mtime = true } else f))

-- From resmgr_msgget on.
abbrev pub after_msgget : Os → Request → Flags → Option (List ℕ) → Return × List Call × Flags
after_msgget os q f none = (errno os.errno_value, malloc q.nbytes ∷ msgget q.nbytes ∷ free ∷ [], f)
after_msgget os q f (some bytes) =
    after_write os f (malloc q.nbytes ∷ msgget q.nbytes ∷ write bytes ∷ []) (length bytes)
      os.written

unfoldable pub io_write : Os → Request → Flags → Return × List Call × Flags
io_write os q f =
    if not (os.verify == 0)
    then (errno os.verify, [], f)
    else if not q.is_plain
    then (errno enosys, [], f)
    else if q.nbytes == 0
    then (no_reply, reply 0 [] ∷ [], f)
    else if not os.malloc_ok
    then (errno enomem, malloc q.nbytes ∷ [], f)
    else after_msgget os q f os.message
