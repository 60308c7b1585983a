-- ===== src/PosixShm.antt =====
-- `get_shared_memory_pointer` of src/23.lab_shm_posix_consumer.c: three loops that try up to
-- `num_retries` times again, with a second between two tries. Whether the try with a number succeeds is
-- an input.
pub mod Exchange
pub mod Producer
pub mod Retries
mod Tests
use qnx_box.Prelude.{
  ltb, ◌%◌, ◌^◌, ℕ, zero, suc, ◌+◌, Bool, true, false, Option, none, some, List, [], ◌∷◌, ◌==◌,
  if◌then◌else◌,
}

-- The character at the front of a string; the NUL if it is empty.
abbrev pub first_char : List ℕ → ℕ
first_char [] = 0
first_char (c ∷ name) = c

-- The name of the object, from `argv`; `none` is exit(EXIT_FAILURE).
abbrev pub shm_object_name : List (List ℕ) → Option (List ℕ)
shm_object_name (program ∷ lab ∷ name ∷ []) = if first_char name == b'/' then some name else none
shm_object_name _ = none

-- The result of a loop: whether it was left by `break`, and how often it slept.
pub record Tried : Type 0 where
  pub ok : Bool
  pub sleeps : ℕ

abbrev pub slept : Tried → Tried
slept t = record t { sleeps = t.sleeps + 1 }

abbrev pub go_on : Option Tried → Option Tried
go_on none = none
go_on (some t) = some (slept t)

-- One of the loops, on fuel for its tries, from the try `i` on: behind a failed try `tries`, an unsigned
-- int, is counted up and compared with `num_retries`. `none` is out of fuel.
unfoldable pub retry : (ℕ → Bool) → (num_retries : ℕ) → ℕ → (i tries : ℕ) → Option Tried
retry success num_retries zero i tries = none
retry success num_retries (suc k) i tries =
    let rest = go_on (retry success num_retries k (i + 1) ((tries + 1) % 2 ^ 32)) in
    if success i
    then some (record { ok = true; sleeps = 0 })
    else if ltb num_retries ((tries + 1) % 2 ^ 32)
    then some (record { ok = false; sleeps = 0 })
    else rest

-- The tries of shm_open and mmap, and whether `init_flag` is set when it is read.
pub record Os : Type 0 where
  pub opens : ℕ → Bool
  pub maps : ℕ → Bool
  pub is_initialized : ℕ → Bool

-- What the function leaves behind: whether it returns a pointer or MAP_FAILED, whether the object is
-- mapped and the descriptor open, and the seconds that it slept.
pub record Outcome : Type 0 where
  pub ok : Bool
  pub is_mapped : Bool
  pub is_open : Bool
  pub sleeps : ℕ

-- The third loop, behind close(fd); munmap where it fails.
abbrev pub wait_initialized : ℕ → Tried → Outcome
wait_initialized s t = record {
  ok = t.ok;
  is_mapped = t.ok;
  is_open = false;
  sleeps = s + t.sleeps;
}

abbrev pub and_then : {A B : Type 0} → Option A → (A → Option B) → Option B
and_then none f = none
and_then (some a) f = f a

abbrev pub after_map : Os → (fuel num s : ℕ) → Tried → Option Outcome
after_map os fuel num s t =
    let initialized =
      and_then (retry os.is_initialized num fuel 0 0)
        (λ u. some (wait_initialized (s + t.sleeps) u)) in
    if t.ok
    then initialized
    else some (record { ok = false; is_mapped = false; is_open = true; sleeps = s + t.sleeps })

abbrev pub after_open : Os → (fuel num : ℕ) → Tried → Option Outcome
after_open os fuel num t =
    let mapped = and_then (retry os.maps num fuel 0 0) (after_map os fuel num t.sleeps) in
    if t.ok
    then mapped
    else some (record { ok = false; is_mapped = false; is_open = false; sleeps = t.sleeps })

unfoldable pub get_shared_memory_pointer : Os → (fuel num_retries : ℕ) → Option Outcome
get_shared_memory_pointer os fuel num_retries =
    and_then (retry os.opens num_retries fuel 0 0) (after_open os fuel num_retries)
