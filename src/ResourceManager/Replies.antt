-- ===== src/ResourceManager/Replies.antt =====
-- What the handlers of src/30.lab_resource_manager.c tell the client.
use qnx_box.Prelude.{ℕ, ◌+◌, ◌≡◌, Bool, List, [], ◌∷◌, arith, if◌then◌else◌}
use qnx_box.ResourceManager.{
  Request, Os, Call, reply, malloc, free, msgget, write, Return, no_reply, errno, Flags, io_read,
  io_write,
}

abbrev pub replies : List Call → ℕ
replies [] = 0
replies (reply _ _ ∷ cs) = replies cs + 1
replies (malloc _ ∷ cs) = replies cs
replies (free ∷ cs) = replies cs
replies (msgget _ ∷ cs) = replies cs
replies (write _ ∷ cs) = replies cs

abbrev pub frees : List Call → ℕ
frees [] = 0
frees (free ∷ cs) = frees cs + 1
frees (reply _ _ ∷ cs) = frees cs
frees (malloc _ ∷ cs) = frees cs
frees (msgget _ ∷ cs) = frees cs
frees (write _ ∷ cs) = frees cs

-- The blocks that malloc gives out.
abbrev pub blocks : Bool → List Call → ℕ
blocks ok [] = 0
blocks ok (malloc _ ∷ cs) = (if ok then blocks ok cs + 1 else blocks ok cs)
blocks ok (free ∷ cs) = blocks ok cs
blocks ok (reply _ _ ∷ cs) = blocks ok cs
blocks ok (msgget _ ∷ cs) = blocks ok cs
blocks ok (write _ ∷ cs) = blocks ok cs

-- One for what tells the library to answer, none for what tells it that the handler did.
abbrev pub answers_by_library : Return → ℕ
answers_by_library no_reply = 0
answers_by_library (errno _) = 1

-- On every path, whatever the calls do, the client of a read or a write is answered exactly once, by
-- the handler or by the library, and what a write allocates it frees.
pub answered_once :
    (os : Os) (q : Request) (f : Flags)
    → (replies (io_read os q f).1 + answers_by_library (io_read os q f).0 ≡ 1)
      × (replies (io_write os q f).1 + answers_by_library (io_write os q f).0 ≡ 1)
      × (frees (io_write os q f).1 ≡ blocks os.malloc_ok (io_write os q f).1)
unfolding io_read io_write
answered_once os q f = (ground arith, ground arith, ground arith)
