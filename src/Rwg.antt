-- ===== src/Rwg.antt =====
-- The single-process remote working ground server: nctu_np_project2/part2.
pub mod State
pub mod Invariant
pub mod Users
pub mod Pipes
pub mod Parse
pub mod Children
pub mod Execute
pub mod Builtins
pub mod Shell
pub mod Server
