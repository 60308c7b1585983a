-- ===== src/Lib.antt =====
-- qnx-box: verification of the programs of a course on the real-time operating system QNX.
--
-- The repository is one executable: src/main.c picks one of the laboratory programs by its name and
-- calls it. The programs do not call each other, except that some of them come as a client and a
-- server that exchange messages. Each modelled program is a module here:
--
--   Shm             src/24.lab_shm_qnx_server.c, src/include/24.shm_qnx.h: a server that makes shared
--                   memory for a client and reads from it. World holds the server's address space
--                   as a list of mappings and the calls that it makes, Create the function
--                   create_shared_memory, Server the message loop. Client adds
--                   src/24.lab_shm_qnx_client.c, Contents the bytes that both have mapped, and Session
--                   and Ending the whole exchange.
--   LineShm         src/27.orange_problem_2_server.c, src/27.orange_problem_2_client.c,
--                   src/include/27.shm_op.h: a client that types lines into the memory of such a server;
--                   Start is the client from its first message on.
--   Mutex           src/10.lab_mutex.c: threads that increment a counter, with and without a mutex; Main is
--                   the main thread.
--   Orange          src/12.orange_problem.c: threads that share out an array in chunks; Main is the main
--                   thread.
--   Variables       src/11.lab_assignment_2.c: threads that keep two variables equal; Main is the main
--                   thread.
--   Calls           what these three main threads do: a row of calls whose results are tested.
--   ThreadTerm      src/08.lab_thread_term.c: threads that end by a cancellation, by themselves and by a
--                   signal.
--   Doubling        src/09.lab_assignment_1.c: threads that double the parts of an array.
--   Atomic          src/14.lab_atomic.c: threads that count with an atomic operation, or without.
--   Condvar         src/13.lab_condvar.c: a thread that waits for a flag.
--   ProcessTimer    src/28.lab_process_timer.c: a process that ends its child and forks another on each
--                   pulse of a timer.
--   StateMachine    src/17.lab_state_machine.c: four threads and a condition variable.
--   HwHandler       src/15.lab_hw_handler_condvar.c: Heap and Queue are the linked queue on an
--                   explicit heap, Threads the handler and the provider over a queue of values, and
--                   Machine both together.
--   ProduceConsume  src/16.lab_produce_consume.c: a producer and a consumer in turns.
--   MessagePassing  src/18.lab_message_passing_server.c, src/18.lab_message_passing_client.c,
--                   src/include/18.msg_def.h: a service that changes the case of a string; Session is
--                   the whole client with the server.
--   NameAttach      src/21.lab_name_attach_server.c, src/21.lab_name_attach_client.c,
--                   src/include/21.msg_def.h: a service that sums the characters of a string, and its
--                   Client.
--   Calculator      src/19.lab_assignment_3_server.c, src/19.lab_assignment_3_client.c,
--                   src/include/19.msg_def.h: arithmetic on two integers; Scan is sscanf.
--   Events          src/22.lab_events_server.c, src/22.lab_events_client.c: a server that sends pulses to
--                   its client.
--   PulseService    src/20.lab_pulse_server.c, src/20.lab_pulse_client.c, src/include/20.msg_def.h: a server
--                   that prints pulses and refuses messages.
--   Interrupt       src/25.lab_interrup_handler.c: two ways to wait for an interrupt.
--   Time            src/29.lab_time.c: commands that show and set the clock.
--   Launcher        src/main.c, src/include/qnx_lab.h; Words is the command line without strtok.
--   ResourceManager src/30.lab_resource_manager.c: the handlers of a device's reads and writes; Loop is the
--                   rest of the program.
--   PosixShm        src/23.lab_shm_posix_consumer.c, src/23.lab_shm_posix_producer.c,
--                   src/include/23.shm_posix.h: how the consumer gets at the shared object, how the
--                   producer makes it (Producer), and the two loops together (Exchange).
--   Prelude         the names and lemmas that all share; CString the C library on byte arrays.
--
-- A definition has the name of the C function or type that it models; a local variable that lives
-- across the rounds of a loop is a field of a record. Threads are step relations on a record of the
-- globals and of the place where each thread stands: an access to shared memory, or what is done
-- under a mutex, is one step; sleeping, printing and delays are no steps. A wait on a condition
-- variable may end without a signal. `main`'s assignment `running = 0` is a step that may come at
-- any time. The outcome of a system call is an input, so a theorem holds for every outcome.
--
-- Loops over arrays recurse on the list of the bytes; a read or a write behind the end is `none`. The
-- walks along the queue are on fuel, of which one unit for each node and each operation is enough; the
-- calls of strtok are on fuel, of which `main` gives the length of the array. The loop of the string
-- client is on fuel, of which one unit for each command and one for `exit` is enough. The tries of
-- PosixShm are on fuel, of which `num_retries` + 1 is enough below the largest unsigned int; there the loop
-- has no end. A loop without an end is run for a number of rounds or over a list of events, and the theorem is about every such number
-- or list. A char is signed, an unsigned int wraps at 2 ^ 32.
--
-- Not modelled: what is printed, unless a theorem speaks of it; the set-up of channels and names and
-- the exit of a process whose system call fails, but for the programs above that name them; a crash, behind
-- which there is no step (HwHandler, where malloc fails for the value that is taken); the programs
-- that only call the system and print (src/01.hello.c to src/07.lab_thread.c, src/26.lab_timer.c).
pub mod Prelude
pub mod Atomic
pub mod CString
pub mod Shm
pub mod Calls
pub mod Condvar
pub mod Doubling
pub mod Events
pub mod Interrupt
pub mod Launcher
pub mod PulseService
pub mod ResourceManager
pub mod PosixShm
pub mod Orange
pub mod ThreadTerm
pub mod Time
pub mod Variables
pub mod LineShm
pub mod Scan
pub mod Calculator
pub mod Mutex
pub mod StateMachine
pub mod HwHandler
pub mod ProcessTimer
pub mod ProduceConsume
pub mod MessagePassing
pub mod NameAttach
