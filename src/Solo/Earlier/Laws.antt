-- ===== src/Solo/Earlier/Laws.antt =====
-- The two shells on a line without `batch`.
use network_programming_nctu.Base.{ℕ, ◌<◌, ◌≤◌, ◌≡◌, false, List, [], ◌∷◌, ◌++◌, Bytes, codes, same}
use network_programming_nctu.Strings.{tokens}
use network_programming_nctu.Statements.{◌>>◌}
use network_programming_nctu.Statements.Ends.{Ends}
use network_programming_nctu.Rwg.State.{wrote}
use network_programming_nctu.Solo.State.{Shell, System, Run, decrease_pipes}
use network_programming_nctu.Solo.Batch.{newline, fgets, prompt}
use network_programming_nctu.Solo.Batch as Later
use network_programming_nctu.Solo.Parse.{Line, initial_line, parse_tokens}
use network_programming_nctu.Solo.Execute as Part1
use network_programming_nctu.Solo.Loop as Part1Loop

-- The row of a process, whose name is not "batch".
abbrev pub NotBatch : List Bytes → Type 0
NotBatch [] = Unit {0}
NotBatch (name ∷ args) = same name (codes "batch") ≡ false

-- The processes of a line, as the parser leaves them.
abbrev pub parsed : System → Bytes → Run Line
parsed sys line =
    decrease_pipes (tokens 32 line) >> parse_tokens sys (tokens 32 line) (initial_line sys)

-- A byte that a line may hold: not a control byte, and not beyond ASCII.
abbrev pub IsPlain : ℕ → Type 0
IsPlain c = (20 ≤ c) × (c < 128)

-- The shell is to read the line `p`, and behind it there is `rest`.
abbrev pub typing : Bytes → Bytes → Shell → Shell
typing p rest s = record s { batch_flag = false; ignore = false; input = p ++ newline ∷ rest }

-- The line is read.
abbrev pub typed : Bytes → Shell → Shell
typed rest s = record s {
  batch_flag = false;
  ignore = false;
  input = rest;
  trace = wrote 1 prompt ∷ s.trace;
}
