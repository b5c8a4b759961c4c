-- ===== src/Multi.antt =====
-- The server with a process for each client, nctu_np_project2/final: user_3.h, semaphore.h, the
-- uses of the shared memory in npshell_3.h, and np_multi_proc.cpp.
pub mod Memory
pub mod Mailbox
pub mod Sections
pub mod Program
pub mod Client
pub mod Running
pub mod Earlier
pub mod Processes
pub mod Semaphore
pub mod Server
