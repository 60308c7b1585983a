-- ===== src/Interrupt/Modes.antt =====
-- The two modes of src/25.lab_interrup_handler.c count the interrupts alike.
use qnx_box.Prelude.{
  ℕ, zero, suc, ◌%◌, ◌^◌, ◌≡◌, refl, ap, sym, ◌∙◌, Bool, true, false, none, some, List, [], ◌∷◌,
  if◌then◌else◌, arith,
}
use qnx_box.CString.{codes}
use qnx_box.Interrupt.{
  Wait, wait_fails, woken, Arrival, receive_fails, pulse, message, Line, got_event, increment,
  thread_loop, event_loop, interrupt_handler,
}

-- The numbers in the lines of the interrupts.
abbrev pub counted : List Line → List ℕ
counted [] = []
counted (got_event count ∷ ls) = count ∷ counted ls
counted (_ ∷ ls) = counted ls

-- The interrupts that InterruptWait has returned for, up to its first failure.
abbrev pub waits_won : List Wait → ℕ
waits_won [] = 0
waits_won (wait_fails ∷ ws) = 0
waits_won (woken unmask_ok ∷ ws) = suc (waits_won ws)

abbrev pub pulses : List Arrival → ℕ
pulses [] = 0
pulses (pulse ∷ es) = suc (pulses es)
pulses (_ ∷ es) = pulses es

-- n numbers from k on, as an int counts.
abbrev pub numbers : ℕ → ℕ → List ℕ
numbers k zero = []
numbers k (suc n) = k % 2 ^ 32 ∷ numbers (suc k) n

abbrev pub has_failed : List Wait → Bool
has_failed [] = false
has_failed (wait_fails ∷ ws) = true
has_failed (woken unmask_ok ∷ ws) = has_failed ws

increment_next : (k : ℕ) → increment (k % 2 ^ 32) ≡ suc k % 2 ^ 32
increment_next k = omega arith

thread_loop-counted :
    (k : ℕ) (ws : List Wait)
    → counted (thread_loop (k % 2 ^ 32) ws).lines ≡ numbers k (waits_won ws)
unfolding thread_loop
thread_loop-counted k [] = refl
thread_loop-counted k (wait_fails ∷ ws) = refl
thread_loop-counted k (woken true ∷ ws) =
    ap (λ n. k % 2 ^ 32 ∷ counted (thread_loop n ws).lines) (increment_next k)
    ∙ ap (λ l. k % 2 ^ 32 ∷ l) (thread_loop-counted (suc k) ws)
thread_loop-counted k (woken false ∷ ws) =
    ap (λ n. k % 2 ^ 32 ∷ counted (thread_loop n ws).lines) (increment_next k)
    ∙ ap (λ l. k % 2 ^ 32 ∷ l) (thread_loop-counted (suc k) ws)

event_loop-counted :
    (k : ℕ) (es : List Arrival) → counted (event_loop (k % 2 ^ 32) es).lines ≡ numbers k (pulses es)
unfolding event_loop
event_loop-counted k [] = refl
event_loop-counted k (receive_fails ∷ es) = event_loop-counted k es
event_loop-counted k (message rcvid ∷ es) = event_loop-counted k es
event_loop-counted k (pulse ∷ es) =
    ap (λ n. k % 2 ^ 32 ∷ counted (event_loop n es).lines) (increment_next k)
    ∙ ap (λ l. k % 2 ^ 32 ∷ l) (event_loop-counted (suc k) es)

thread_loop-status :
    (k : ℕ) (ws : List Wait) → (thread_loop k ws).status ≡ (if has_failed ws then some 1 else none)
unfolding thread_loop
thread_loop-status k [] = refl
thread_loop-status k (wait_fails ∷ ws) = refl
thread_loop-status k (woken true ∷ ws) = thread_loop-status (increment k) ws
thread_loop-status k (woken false ∷ ws) = thread_loop-status (increment k) ws

event_loop-status : (k : ℕ) (es : List Arrival) → (event_loop k es).status ≡ none
unfolding event_loop
event_loop-status k [] = refl
event_loop-status k (receive_fails ∷ es) = event_loop-status k es
event_loop-status k (message rcvid ∷ es) = event_loop-status k es
event_loop-status k (pulse ∷ es) = event_loop-status (increment k) es

-- Started as "thread" with an attachment that succeeds, or as "event", the program numbers the interrupts
-- alike: if InterruptWait returns as often before it fails as there are pulses, the lines have the same
-- numbers, which are 0, 1, 2 and so on as far as an int counts, also where InterruptUnmask fails and
-- where a receive fails or a message comes in between. They differ in errors: "thread" exits with 1 at
-- the first wait that fails, and "event" never ends.
pub modes_agree :
    (prog program : List ℕ) (ws vs : List Wait) (es fs : List Arrival) (attach_ok : Bool)
    → waits_won ws ≡ pulses es
    → let by_thread = interrupt_handler (prog ∷ program ∷ codes "thread" ∷ []) true ws fs in
      let by_event = interrupt_handler (prog ∷ program ∷ codes "event" ∷ []) attach_ok vs es in
      (counted by_thread.lines ≡ counted by_event.lines)
      × (counted by_event.lines ≡ numbers 0 (pulses es))
      × (by_thread.status ≡ (if has_failed ws then some 1 else none))
      × (by_event.status ≡ none)
unfolding interrupt_handler
modes_agree prog program ws vs es fs attach_ok e = (
  thread_loop-counted 0 ws ∙ ap (numbers 0) e ∙ sym (event_loop-counted 0 es),
  event_loop-counted 0 es,
  thread_loop-status 0 ws,
  event_loop-status 0 es,
)
