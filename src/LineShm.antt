-- ===== src/LineShm.antt =====
-- A client that types lines into a server's shared memory: src/27.orange_problem_2_server.c,
-- src/27.orange_problem_2_client.c and src/include/27.shm_op.h. The server has the state of the one of
-- src/24.lab_shm_qnx_server.c, and some of its code is the same; it gives no answer through the memory.
pub mod Server
pub mod Client
pub mod Session
pub mod Start
mod Tests
