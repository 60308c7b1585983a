-- ===== src/ResourceManager/Tests.antt =====
-- The theorems on the handlers of src/30.lab_resource_manager.c at concrete inputs.
use qnx_box.Prelude.{List, ◌≡◌, refl, true, false, some, [], ◌∷◌}
use qnx_box.CString.{codes}
use qnx_box.ResourceManager.{
  Request, Os, Call, reply, malloc, free, msgget, no_reply, Flags, io_read, io_write,
}
use qnx_box.ResourceManager.Loop.{Event, read, write, pulse, message, block_failed, replied, loop}
use qnx_box.ResourceManager.Loop.Clients.{expected, all_served}

abbrev untouched : Flags
untouched = record { atime = false; mtime = false }

abbrev short_write : Os
short_write = record {
  verify = 0;
  malloc_ok = true;
  message = some (codes "abc");
  written = some 1;
  errno_value = 0;
}

abbrev three_bytes : Request
three_bytes = record { is_plain = true; nbytes = 3 }

-- Two reads and a write, with a pulse between them.
abbrev traffic : List Event
traffic =
    message 11 257 (read short_write three_bytes)
    ∷ pulse 4
    ∷ message 12 258 (write short_write three_bytes)
    ∷ message 13 257 (read short_write three_bytes)
    ∷ block_failed
    ∷ message 14 257 (read short_write three_bytes)
    ∷ []

-- The second read gets the same bytes as the first.
same_again :
    expected traffic
    ≡ (11, replied 3 (codes "hel")) ∷ (12, replied 3 []) ∷ (13, replied 3 (codes "hel")) ∷ []
same_again = refl

all_served_example :
    ((loop 2 untouched traffic).answers ≡ expected traffic)
    × ((loop 2 untouched traffic).flags.atime ≡ true)
    × ((loop 2 untouched traffic).flags.mtime ≡ true)
all_served_example = all_served 2 untouched traffic

-- A short write is reported whole.
whole_count : io_write short_write three_bytes untouched ≡ (
  no_reply,
  malloc 3 ∷ msgget 3 ∷ Call.write (codes "abc") ∷ free ∷ reply 3 [] ∷ [],
  record { atime = false; mtime = true },
)
unfolding io_write
whole_count = refl

reads_hel :
    io_read short_write three_bytes untouched
    ≡ (no_reply, reply 3 (codes "hel") ∷ [], record { atime = true; mtime = false })
unfolding io_read
reads_hel = refl
