-- ===== src/LineShm/Start.antt =====
-- src/27.orange_problem_2_client.c from its first message on, with its server.
use qnx_box.Prelude.{
  ℕ, ◌+◌, ◌≤◌, ◌≡◌, refl, ap, ◌∙◌, true, some, List, ◌++◌, arith, length, not, ◌&&◌, if-true,
  if-false, eq→==,
}
use qnx_box.CString.{IsText}
use qnx_box.Shm.Server.{Server}
use qnx_box.Shm.Server.Granted.{IsGranted, serving, granting_calls, get_shm-granted}
use qnx_box.LineShm.Server.{on_message}
use qnx_box.LineShm.Client.{shm_size, Said, talk, Outcomes, get_msg, after_get, start}
use qnx_box.LineShm.Session.{typed_is_printed}

-- Every call in front of the loop, and every MsgReply of the server, succeeds.
pub record AllOk (o : Outcomes) : Type 0 where
  pub name_open : o.name_open_ok ≡ true
  pub open_handle : o.open_handle_ok ≡ true
  pub map : o.map_ok ≡ true
  pub granted : IsGranted o.on_get
  pub changed_reply : o.on_changed.reply_ok ≡ true

module _ (io_max rcvid scoid pid : ℕ) (o : Outcomes) (h : AllOk o) where
  abbrev server : Server
  server = serving h.granted scoid shm_size

  got :
      (s : Server)
      → on_message io_max o.on_get s (get_msg io_max rcvid scoid pid)
        ≡ (server, granting_calls h.granted rcvid shm_size)
  unfolding on_message
  got s =
      if-true _ _ (eq→== (io_max + 200) (io_max + 200) refl)
      ∙ get_shm-granted h.granted s (get_msg io_max rcvid scoid pid) (omega arith)

  start_ok :
      (k : ℕ) (mem input : List ℕ) (s : Server)
      → start io_max rcvid scoid pid o k mem input s
        ≡ some (talk k io_max o.on_changed server rcvid scoid pid mem input)
  unfolding start
  start_ok k mem input s =
      if-false _ _ (ap not h.name_open)
      ∙ ap (after_get io_max rcvid scoid pid o k mem input) (got s)
      ∙ if-true _ _ (ap (λ b. b && o.map_ok) h.open_handle ∙ h.map)

  -- The client that asks for its memory and types into it, where every call succeeds: whatever the state
  -- of the server before, whatever the new memory held, and however long the lines are, after any number
  -- of rounds what the server has printed and what is still to be read are the input, and after as many
  -- rounds as it has bytes all of it is printed, byte for byte. The input is a text without NULs.
  pub typed_from_start :
      (k : ℕ) (mem input : List ℕ) (s : Server)
      → IsText input
      → length mem ≡ shm_size
      → (said : Said) × (start io_max rcvid scoid pid o k mem input s ≡ some said)
        × (said.out ++ said.rest ≡ input)
        × (length input ≤ k → said.out ≡ input)
  typed_from_start k mem input s t size =
      let (all, enough) =
        typed_is_printed io_max o.on_changed server rcvid scoid pid h.changed_reply refl refl k mem
          input t size in
      (
        talk k io_max o.on_changed server rcvid scoid pid mem input,
        start_ok k mem input s,
        all,
        enough,
      )
