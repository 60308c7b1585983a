-- ===== src/Shm/Session.antt =====
-- The exchange of src/24.lab_shm_qnx_client.c with its server from the first message to the last.
use mathlib.Core.List.{append-nil}
use qnx_box.Prelude.{
  ℕ, ◌+◌, ◌≤◌, ◌≡◌, refl, true, some, List, [], ◌∷◌, ◌++◌, length, arith, ◌∙◌, ap, not, ◌&&◌,
  if-true, if-false, eq→==,
}
use qnx_box.Shm.World.{at, munmap, print_from, copy_to, reply, changed_reply, empty_reply}
use qnx_box.Shm.Contents.{read_at, write_at, read_at-write_at, length-write_at}
use qnx_box.Shm.Server.{Server, on_message, changed_shm, release_shm, is_bad_range, u32}
use qnx_box.Shm.Server.Granted.{IsGranted, serving, granting_calls, get_shm-granted}
use qnx_box.Shm.Client.{
  Outcomes, sent, after_release, after_get, after_changed, send_release, send_changed, after, shows,
  talk,
}

-- Every call of both programs succeeds.
pub record AllOk (o : Outcomes) : Type 0 where
  pub name_open : o.name_open_ok ≡ true
  pub open_handle : o.open_handle_ok ≡ true
  pub map : o.map_ok ≡ true
  pub granted : IsGranted o.on_get
  pub changed_reply : o.on_changed.reply_ok ≡ true
  pub release_reply : o.on_release.reply_ok ≡ true

module _ (rcvid scoid pid io_max : ℕ) (resp : List ℕ) (o : Outcomes) (msg : List ℕ) where
  module _ (h : AllOk o) where
    abbrev server : Server
    server = serving h.granted scoid 8192

    got :
        (s : Server)
        → on_message io_max resp o.on_get s (sent rcvid scoid pid (io_max + 200) 8192 0)
          ≡ (server, granting_calls h.granted rcvid 8192)
    unfolding on_message
    got s =
        if-true _ _ (eq→== (io_max + 200) (io_max + 200) refl)
        ∙ get_shm-granted h.granted s (sent rcvid scoid pid (io_max + 200) 8192 0) (omega arith)

    changed :
        20 + length msg ≤ 8192
        → on_message io_max resp o.on_changed server
            (sent rcvid scoid pid (io_max + 201) 20 (u32 (length msg)))
          ≡ (
            server,
            print_from (at h.granted.addr) 20 (length msg)
                ∷ copy_to (at h.granted.addr) 4126 resp
                ∷ reply rcvid (changed_reply 4126 (length resp))
                ∷ [],
          )
    unfolding on_message changed_shm is_bad_range
    changed fits = rw h.changed_reply (ground arith)

    released :
        on_message io_max resp o.on_release server (sent rcvid scoid pid (io_max + 202) 0 0) ≡ (
          record server { client_scoid = 0 },
          munmap (at h.granted.addr) 8192 ∷ reply rcvid empty_reply ∷ [],
        )
    unfolding on_message release_shm
    released = rw h.release_reply (ground arith)

  released_ok :
      (h : AllOk o)
      → send_release rcvid scoid pid io_max resp o msg (server h)
        ≡ after_release (
          record (server h) { client_scoid = 0 },
          munmap (at h.granted.addr) 8192 ∷ reply rcvid empty_reply ∷ [],
        )
  released_ok h = ap after_release (released h)

  -- What the client finds of the answer in the object.
  abbrev answer : List ℕ → List ℕ
  answer mem = read_at 4126 (length resp) (write_at 4126 resp (write_at 20 msg mem))

  changed_ok :
      (h : AllOk o) (mem : List ℕ)
      → 20 + length msg ≤ 8192
      → let t = send_changed rcvid scoid pid io_max resp o msg mem (server h) in
        (t.ok ≡ true)
        × (t.out ≡ (read_at 20 (length msg) (write_at 20 msg mem) ++ []) ++ [])
        × (t.shown ≡ some (answer mem))
        × (t.server.client_scoid ≡ 0)
  changed_ok h mem fits =
      let copied = write_at 20 msg mem in
      let e : send_changed rcvid scoid pid io_max resp o msg mem (server h) ≡ _ =
        ap (after_changed rcvid scoid pid io_max resp o msg copied) (changed h fits)
        ∙ ap
            (λ t.
              after
                (print_from (at h.granted.addr) 20 (length msg)
                  ∷ copy_to (at h.granted.addr) 4126 resp
                  ∷ reply rcvid (changed_reply 4126 (length resp))
                  ∷ [])
                (shows (read_at 20 (length msg) copied ++ []) (answer mem) t))
            (released_ok h) in
      (ap (λ t. t.ok) e, ap (λ t. t.out) e, ap (λ t. t.shown) e, ap (λ t. t.server.client_scoid) e)

  talk_ok :
      (h : AllOk o) (mem : List ℕ) (s : Server)
      → talk rcvid scoid pid io_max resp o msg mem s
        ≡ after
            (granting_calls h.granted rcvid 8192)
            (send_changed rcvid scoid pid io_max resp o msg mem (server h))
  unfolding talk
  talk_ok h mem s =
      if-false _ _ (ap not h.name_open)
      ∙ ap (after_get rcvid scoid pid io_max resp o msg mem) (got h s)
      ∙ if-true _ _ (ap (λ b. b && o.map_ok) h.open_handle ∙ h.map)

  -- The exchange of a message and its answer through the object, where every call succeeds and both fit
  -- behind their offsets: the server prints the client's message, the client shows the server's answer
  -- and returns EXIT_SUCCESS, and the server has no client afterwards. This is so whatever the object
  -- held before, and whatever the state of the server.
  pub message_and_answer :
      (mem : List ℕ) (s : Server)
      → AllOk o
      → length mem ≡ 8192
      → 20 + length msg ≤ 8192
      → 4126 + length resp ≤ 8192
      → let t = talk rcvid scoid pid io_max resp o msg mem s in
        (t.ok ≡ true) × (t.out ≡ msg) × (t.shown ≡ some resp) × (t.server.client_scoid ≡ 0)
  unfolding talk
  message_and_answer mem s h size fits room =
      let wrote = read_at-write_at 20 msg mem (omega arith) in
      let answered =
        read_at-write_at 4126 resp (write_at 20 msg mem)
          (omega (arith, length-write_at 20 msg mem)) in
      let (ok, out, shown, idle) = changed_ok h mem fits in
      let e = talk_ok h mem s in
      (
        ap (λ t. t.ok) e ∙ ok,
        ap (λ t. t.out) e ∙ out ∙ append-nil _ ∙ append-nil _ ∙ wrote,
        ap (λ t. t.shown) e ∙ shown ∙ ap some answered,
        ap (λ t. t.server.client_scoid) e ∙ idle,
      )
