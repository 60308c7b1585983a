-- ===== src/HwHandler.antt =====
-- The queue between the threads of src/15.lab_hw_handler_condvar.c.
pub mod Heap
pub mod Machine
pub mod Queue
pub mod Threads
mod Tests
