-- ===== src/ResourceManager/Loop/Clients.antt =====
-- What the clients of the device of src/30.lab_resource_manager.c get.
use qnx_box.Prelude.{
  ℕ, ◌≡◌, refl, ap, ◌∙◌, Bool, false, ◌||◌, ◌&&◌, Option, none, some, List, [], ◌∷◌, ◌++◌, ltb,
  ◌==◌, if◌then◌else◌, arith, not, is_some, length, min,
}
use qnx_box.CString.{take}
use qnx_box.ResourceManager.{Os, Flags, device_data, enosys, enomem, io_read, io_write}
use qnx_box.ResourceManager.Loop.{
  Operation, open_device, read, write, Event, block_failed, pulse, message, handler, Answer,
  replied, returned, replied_by, answered_by, for_client, loop,
}

-- The answer to a write that got so far as to copy the bytes.
abbrev pub write_answer : Os → ℕ → Option ℕ → Answer
write_answer os nb none = returned os.errno_value
write_answer os nb (some n) = replied nb []

abbrev pub copy_answer : Os → Option (List ℕ) → Answer
copy_answer os none = returned os.errno_value
copy_answer os (some bytes) = write_answer os (length bytes) os.written

-- What a client may expect of its operation, whatever happened before.
abbrev pub answer_of : Operation → Answer
answer_of (open_device status) = returned status
answer_of (read os q) =
    if not (os.verify == 0)
    then returned os.verify
    else if not q.is_plain
    then returned enosys
    else replied (min (length device_data) q.nbytes)
        (take (min (length device_data) q.nbytes) device_data)
answer_of (write os q) =
    if not (os.verify == 0)
    then returned os.verify
    else if not q.is_plain
    then returned enosys
    else if q.nbytes == 0
    then replied 0 []
    else if not os.malloc_ok
    then returned enomem
    else copy_answer os os.message

-- An operation has one answer.
one_answer :
    (op : Operation) (f : Flags)
    → replied_by (handler op f).1 ++ answered_by (handler op f).0 ≡ answer_of op ∷ []
unfolding handler io_read io_write
one_answer (open_device status) f = refl
one_answer (read os q) f = ground arith
one_answer (write os q) f = ground arith

-- The answers to all messages that arrive before the loop is left.
abbrev pub expected : List Event → List (ℕ × Answer)
expected [] = []
expected (block_failed ∷ es) = []
expected (pulse code ∷ es) = expected es
expected (message rcvid type op ∷ es) = (rcvid, answer_of op) ∷ expected es

-- The operation is a read that hands out bytes; or a write that took some.
abbrev pub is_access : Operation → Bool
is_access (read os q) = (os.verify == 0) && q.is_plain && ltb 0 q.nbytes
is_access _ = false

abbrev pub copied : Os → Option (List ℕ) → Bool
copied os none = false
copied os (some bytes) = is_some os.written && ltb 0 (length bytes)

abbrev pub is_change : Operation → Bool
is_change (write os q) =
    (os.verify == 0) && q.is_plain && ltb 0 q.nbytes && os.malloc_ok && copied os os.message
is_change _ = false

abbrev pub any_operation : (Operation → Bool) → List Event → Bool
any_operation p [] = false
any_operation p (block_failed ∷ es) = false
any_operation p (pulse code ∷ es) = any_operation p es
any_operation p (message rcvid type op ∷ es) = p op || any_operation p es

handler-flags :
    (op : Operation) (f : Flags)
    → ((handler op f).2.atime ≡ (f.atime || is_access op))
      × ((handler op f).2.mtime ≡ (f.mtime || is_change op))
unfolding handler io_read io_write
handler-flags (open_device status) f = ground arith
handler-flags (read os q) f = ground arith
handler-flags (write os q) f = ground arith

or_assoc : (a b c : Bool) → ((a || b) || c) ≡ (a || (b || c))
or_assoc a b c = ground arith

-- Whatever arrives, in whatever order, with the option -v or without: each client is answered exactly once,
-- in the order of arrival, and with what its own operation calls for, so a read begins at the front of the
-- data however much was read before. At the end the time of access is marked exactly if a read handed out
-- bytes, and the times of change exactly if a write took some, or they were marked before.
pub all_served :
    (optv : ℕ) (f : Flags) (es : List Event)
    → ((loop optv f es).answers ≡ expected es)
      × ((loop optv f es).flags.atime ≡ (f.atime || any_operation is_access es))
      × ((loop optv f es).flags.mtime ≡ (f.mtime || any_operation is_change es))
unfolding loop
all_served optv f [] = (refl, ground arith, ground arith)
all_served optv f (block_failed ∷ es) = (refl, ground arith, ground arith)
all_served optv f (pulse code ∷ es) = all_served optv f es
all_served optv f (message rcvid type op ∷ es) =
    let g = (handler op f).2 in
    let (answers, atime, mtime) = all_served optv g es in
    let (access, change) = handler-flags op f in
    (
      ap (λ l. for_client rcvid l ++ (loop optv g es).answers) (one_answer op f)
          ∙ ap (λ l. (rcvid, answer_of op) ∷ l) answers,
      atime ∙ ap (λ b. b || any_operation is_access es) access ∙ or_assoc f.atime _ _,
      mtime ∙ ap (λ b. b || any_operation is_change es) change ∙ or_assoc f.mtime _ _,
    )
