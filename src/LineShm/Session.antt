-- ===== src/LineShm/Session.antt =====
-- What is typed into src/27.orange_problem_2_client.c is printed by src/27.orange_problem_2_server.c.
use mathlib.Core.List.{append_assoc, append-nil}
use qnx_box.Prelude.{
  ℕ, zero, suc, ◌-◌, ◌≤◌, ◌<◌, ◌≡◌, refl, sym, ap, ◌∙◌, true, List, [], ◌∷◌, ◌++◌, arith,
  if◌then◌else◌, length,
}
use qnx_box.CString.{IsText, c_string, line, after_line, zeros, length-zeros, c_string-overwrite}
use qnx_box.Shm.World.{Ptr, print_from, reply, empty_reply}
use qnx_box.Shm.Contents.{read_at, write_at, printed, contents, read_at-write_at, length-write_at}
use qnx_box.Shm.Create.{Os}
use qnx_box.Shm.Server.{Server, is_bad_range}
use qnx_box.LineShm.Server.{changed_shm, on_message}
use qnx_box.LineShm.Client.{
  shm_size, message_line, msg_len, typed, changed_msg, is_replied, say, talk,
}

-- What fgets takes and what it leaves is the input.
line-after_line : (k : ℕ) (input : List ℕ) → line k input ++ after_line k input ≡ input
line-after_line zero input = refl
line-after_line (suc k) [] = refl
line-after_line (suc k) (c ∷ input) = ground (arith, line-after_line k input)

IsText-line :
    (k : ℕ) (input : List ℕ) → IsText input → IsText (line k input) × IsText (after_line k input)
IsText-line zero input t = (tt, t)
IsText-line (suc k) [] t = (tt, tt)
IsText-line (suc k) (c ∷ input) (ne, t) = ground (arith, IsText-line k input t)

length-line : (k : ℕ) (input : List ℕ) → length (line k input) ≤ k
length-line zero input = omega arith
length-line (suc k) [] = omega arith
length-line (suc k) (c ∷ input) = ground (arith, length-line k input)

-- A round takes at least one byte.
length-after_line : (k : ℕ) (input : List ℕ) → length (after_line k input) ≤ length input
length-after_line zero input = omega arith
length-after_line (suc k) [] = omega arith
length-after_line (suc k) (c ∷ input) = ground (arith, length-after_line k input)

-- The message is the next line, or what fits of it; at the end of the input it is empty.
message-line :
    (input : List ℕ) → IsText input → c_string (message_line input) ≡ line (shm_size - 1) input
unfolding message_line
message-line [] t = refl
message-line (c ∷ input) t =
    c_string-overwrite (line (shm_size - 1) (c ∷ input)) (zeros shm_size)
      (IsText-line (shm_size - 1) (c ∷ input) t).0
      (omega (arith, length-line (shm_size - 1) (c ∷ input), length-zeros shm_size))

msg_len-small : (input : List ℕ) → IsText input → msg_len input < shm_size
unfolding msg_len
msg_len-small input t =
    omega (arith, ap length (message-line input t), length-line (shm_size - 1) input)

-- The bytes of the object that the server prints are the line.
printed-line :
    (p : Ptr) (rcvid : ℕ) (input mem : List ℕ)
    → IsText input
    → length mem ≡ shm_size
    → printed (typed input mem) (print_from p 0 (msg_len input) ∷ reply rcvid empty_reply ∷ [])
      ≡ line (shm_size - 1) input
unfolding msg_len typed
printed-line p rcvid input mem t h =
    append-nil (
      read_at 0 (length (c_string (message_line input)))
        (write_at 0 (c_string (message_line input)) mem))
    ∙ read_at-write_at 0 (c_string (message_line input)) mem
        (omega (arith, h, ap length (message-line input t), length-line (shm_size - 1) input))
    ∙ message-line input t

length-typed : (input mem : List ℕ) → length (typed input mem) ≡ length mem
unfolding typed
length-typed input mem = length-write_at 0 (c_string (message_line input)) mem

empty : (input : List ℕ) → length input ≤ 0 → input ≡ []
empty [] h = refl
empty (c ∷ input) h = absurd (omega arith)

-- A round takes a byte, if there is one.
shorter : (k j : ℕ) (input : List ℕ) → length input ≤ suc j → length (after_line (suc k) input) ≤ j
shorter k j [] h = omega arith
shorter k j (c ∷ input) h = ground (arith, length-after_line k input)

module _ (io_max : ℕ) (os : Os) (s : Server) (rcvid scoid pid : ℕ) (up : os.reply_ok ≡ true)
    (client : scoid ≡ s.client_scoid) (ready : s.shm_memory_size ≡ shm_size) where
  served :
      (n : ℕ)
      → n < shm_size
      → on_message io_max os s (changed_msg io_max rcvid scoid pid n)
        ≡ (s, print_from s.shm_ptr 0 n ∷ reply rcvid empty_reply ∷ [])
  unfolding on_message changed_shm is_bad_range
  served n small = ground arith

  talk-suc :
      (k : ℕ) (mem input : List ℕ)
      → IsText input
      → length mem ≡ shm_size
      → talk (suc k) io_max os s rcvid scoid pid mem input
        ≡ say
            (line (shm_size - 1) input)
            (talk k io_max os s rcvid scoid pid (typed input mem) (after_line (shm_size - 1) input))
  unfolding talk
  talk-suc k mem input t h =
      ap
        (λ r.
          if is_replied r.1
          then say (printed (typed input mem) r.1) (
              talk k io_max os r.0 rcvid scoid pid (contents (typed input mem) r.1)
                (after_line (shm_size - 1) input))
          else record {
            out = printed (typed input mem) r.1;
            rest = after_line (shm_size - 1) input;
          })
        (served (msg_len input) (msg_len-small input t))
      ∙ ap
          (λ l. say l (
            talk k io_max os s rcvid scoid pid (typed input mem) (after_line (shm_size - 1) input)))
          (printed-line s.shm_ptr rcvid input mem t h)

  -- The server prints what is typed, byte for byte, however long the lines are and whatever was in the
  -- memory: after any number of rounds what is printed and what is still to be read are the input, and
  -- after as many rounds as it has bytes all of it is printed. The input is a text without NULs, the
  -- server has the client with its 4096 bytes, and MsgReply succeeds.
  pub typed_is_printed :
      (k : ℕ) (mem input : List ℕ)
      → IsText input
      → length mem ≡ shm_size
      → let said = talk k io_max os s rcvid scoid pid mem input in
        (said.out ++ said.rest ≡ input) × (length input ≤ k → said.out ≡ input)
  unfolding talk
  typed_is_printed zero mem input t h = (refl, λ short. sym (empty input short))
  typed_is_printed (suc k) mem input t h =
      let left = after_line (shm_size - 1) input in
      let (all, enough) =
        typed_is_printed k (typed input mem) left (IsText-line (shm_size - 1) input t).1
          (length-typed input mem ∙ h) in
      rw (talk-suc k mem input t h) (
        append_assoc (line (shm_size - 1) input) _ _
            ∙ ap (λ l. line (shm_size - 1) input ++ l) all
            ∙ line-after_line (shm_size - 1) input,
        λ short.
            ap (λ l. line (shm_size - 1) input ++ l) (enough (shorter (shm_size - 2) k input short))
            ∙ line-after_line (shm_size - 1) input,
      )
