-- ===== src/Mutex/Main/Prints.antt =====
-- What src/10.lab_mutex.c prints, with its threads.
use qnx_box.Prelude.{ℕ, List, [], ◌∷◌}
use qnx_box.Calls.{Event, acted, failed}
use qnx_box.Mutex.Main.{Call, mutex_init, Action, say_final}

-- The counters that are printed.
abbrev pub finals : List (Event Call Action) → List ℕ
finals [] = []
finals (acted (say_final counter) ∷ es) = counter ∷ finals es
finals (_ ∷ es) = finals es

-- The error numbers in the message on pthread_mutex_init.
abbrev pub init_errors : List (Event Call Action) → List ℕ
init_errors [] = []
init_errors (failed mutex_init error ∷ es) = error ∷ init_errors es
init_errors (_ ∷ es) = init_errors es
