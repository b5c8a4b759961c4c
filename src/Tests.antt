-- ===== src/Tests.antt =====
-- Runs of the definitions at concrete inputs, and the theorems applied there.
pub mod AcceptorWitnesses
pub mod EarlierWitnesses
pub mod RwgRuns
pub mod RwgWitnesses
pub mod OtherWitnesses
pub mod MultiWitnesses
pub mod ConnectWitnesses
pub mod ConsoleWitnesses
