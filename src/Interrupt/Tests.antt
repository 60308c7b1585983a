-- ===== src/Interrupt/Tests.antt =====
-- `qnx_lab_interrupt_handler` of src/25.lab_interrup_handler.c at concrete interrupts.
use qnx_box.Prelude.{◌≡◌, refl, true, false, none, some, [], ◌∷◌}
use qnx_box.CString.{codes}
use qnx_box.Interrupt.{
  wait_fails, woken, receive_fails, pulse, message, interrupt_handler, Wait, Arrival,
}
use qnx_box.Interrupt.Modes.{counted, modes_agree}
use qnx_box.Prelude.{List}

abbrev waits : List Wait
waits = woken true ∷ woken false ∷ wait_fails ∷ woken true ∷ []

abbrev arrivals : List Arrival
arrivals = pulse ∷ receive_fails ∷ message 5 ∷ pulse ∷ []

modes_agree_example :
    (counted (interrupt_handler ([] ∷ [] ∷ codes "thread" ∷ []) true waits []).lines
      ≡ counted (interrupt_handler ([] ∷ [] ∷ codes "event" ∷ []) false [] arrivals).lines)
    × (counted (interrupt_handler ([] ∷ [] ∷ codes "event" ∷ []) false [] arrivals).lines
        ≡ 0 ∷ 1 ∷ [])
    × ((interrupt_handler ([] ∷ [] ∷ codes "thread" ∷ []) true waits []).status ≡ some 1)
    × ((interrupt_handler ([] ∷ [] ∷ codes "event" ∷ []) false [] arrivals).status ≡ none)
modes_agree_example = modes_agree [] [] waits [] arrivals [] false refl
