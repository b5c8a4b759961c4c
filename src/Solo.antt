-- ===== src/Solo.antt =====
-- The shell that serves one client on its standard input, and keeps no users:
-- nctu_np_project2/part1/npshell.h, of which final/npshell_1.h is a copy.
pub mod State
pub mod Batch
pub mod Parse
pub mod Children
pub mod Execute
pub mod Loop
pub mod Earlier
pub mod PathArray
