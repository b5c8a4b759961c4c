-- ===== src/Multi/Running/Owners.antt =====
-- The processes of the server keep to their rows, whatever the order of their accesses.
use network_programming_nctu.Base.{ℕ, ◌≢◌, List, All}
use network_programming_nctu.Statements.Ends.{Ends}
use network_programming_nctu.Multi.Memory.{Memory, Access}
use network_programming_nctu.Multi.Sections.{body}
use network_programming_nctu.Multi.Program.Laws.{Runs, Any}
use network_programming_nctu.Multi.Client.Parse.Laws.{IsOwn}
use network_programming_nctu.Multi.Running.{
  Rest, Phase, unborn, running, inside, ended, MainPhase, filling, Server,
}
use network_programming_nctu.Multi.Running.Rows.{KeepsRow}

-- Accesses that leave every row but `ui` to its client.
abbrev pub KeepsOthers : ℕ → List Access → Type 0
KeepsOthers ui accesses = (j : ℕ) → ui ≢ j → All (KeepsRow j) accesses

-- A program whose sections do, and that renames no row but `ui`.
abbrev IsSafe : ℕ → Rest → Type 0
IsSafe ui k = Runs (λ s. KeepsOthers ui (body s)) (IsOwn ui) Any k

-- What is left of a process.
abbrev IsSafePhase : ℕ → Phase → Type 0
IsSafePhase ui unborn = Unit {0}
IsSafePhase ui (running k) = IsSafe ui k
IsSafePhase ui (inside rest k) = KeepsOthers ui rest × IsSafe ui k
IsSafePhase ui ended = Unit {0}

abbrev IsSafeMain : MainPhase → Type 0
IsSafeMain (filling ui rest) = KeepsOthers ui rest
IsSafeMain _ = Unit {0}

abbrev AreSafe : Server → Type 0
AreSafe s = (p : ℕ) → IsSafePhase (s.row p) (s.phase p)

-- main does not fill the row `j`.
abbrev pub Avoids : ℕ → MainPhase → Type 0
Avoids j (filling ui rest) = ui ≢ j
Avoids j _ = Unit {0}
