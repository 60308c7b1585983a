-- ===== src/Shm.antt =====
-- Shared memory handed from a QNX server to a client: src/24.lab_shm_qnx_server.c,
-- src/24.lab_shm_qnx_client.c and src/include/24.shm_qnx.h.
pub mod Client
pub mod Contents
pub mod World
pub mod Create
pub mod Ending
pub mod Server
pub mod Session
mod Tests
