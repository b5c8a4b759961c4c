-- ===== src/Multi/Client.antt =====
-- npshell of final/npshell_3.h: the loop in which a client's process serves it.
pub mod State
pub mod Parse
pub mod Children
pub mod Builtins
pub mod Execute
pub mod Loop
