-- ===== src/Shm/Contents.antt =====
-- The bytes of a shared memory object, which the server and the client both have mapped, and what the
-- calls of a server do with them.
use qnx_box.Prelude.{ℕ, zero, suc, ◌+◌, ◌≤◌, ◌≡◌, refl, ap, List, [], ◌∷◌, ◌++◌, arith, length}
use qnx_box.CString.{take, overwrite, length-overwrite}
use qnx_box.Shm.World.{Call, print_from, copy_to}

abbrev pub drop : ℕ → List ℕ → List ℕ
drop zero mem = mem
drop (suc k) [] = []
drop (suc k) (c ∷ mem) = drop k mem

abbrev pub read_at : ℕ → ℕ → List ℕ → List ℕ
read_at offset len mem = take len (drop offset mem)

abbrev pub write_at : ℕ → List ℕ → List ℕ → List ℕ
write_at zero bytes mem = overwrite bytes mem
write_at (suc k) bytes [] = []
write_at (suc k) bytes (c ∷ mem) = c ∷ write_at k bytes mem

-- What a call prints of the object.
abbrev pub printed_by : List ℕ → Call → List ℕ
printed_by mem (print_from p offset len) = read_at offset len mem
printed_by mem _ = []

-- The object after a call.
abbrev pub after : List ℕ → Call → List ℕ
after mem (copy_to p offset bytes) = write_at offset bytes mem
after mem _ = mem

abbrev pub printed : List ℕ → List Call → List ℕ
printed mem [] = []
printed mem (c ∷ cs) = printed_by mem c ++ printed (after mem c) cs

abbrev pub contents : List ℕ → List Call → List ℕ
contents mem [] = mem
contents mem (c ∷ cs) = contents (after mem c) cs

take-overwrite :
    (bytes mem : List ℕ)
    → length bytes ≤ length mem
    → take (length bytes) (overwrite bytes mem) ≡ bytes
take-overwrite [] mem h = refl
take-overwrite (c ∷ bytes) [] h = absurd (omega arith)
take-overwrite (c ∷ bytes) (d ∷ mem) h = ap (λ l. c ∷ l) (take-overwrite bytes mem (omega arith))

-- What was written is read again.
pub read_at-write_at :
    (offset : ℕ) (bytes mem : List ℕ)
    → offset + length bytes ≤ length mem
    → read_at offset (length bytes) (write_at offset bytes mem) ≡ bytes
read_at-write_at zero bytes mem h = take-overwrite bytes mem (omega arith)
read_at-write_at (suc k) [] [] h = refl
read_at-write_at (suc k) (c ∷ bytes) [] h = absurd (omega arith)
read_at-write_at (suc k) bytes (d ∷ mem) h = read_at-write_at k bytes mem (omega arith)

pub length-write_at :
    (offset : ℕ) (bytes mem : List ℕ) → length (write_at offset bytes mem) ≡ length mem
length-write_at zero bytes mem = length-overwrite bytes mem
length-write_at (suc k) bytes [] = refl
length-write_at (suc k) bytes (d ∷ mem) = ap suc (length-write_at k bytes mem)
