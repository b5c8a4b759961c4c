-- ===== src/Solo/Batch.antt =====
-- The lines of npshell: `fgets` on the standard input and on a batch file, and the commands that a
-- batch file leaves.
use network_programming_nctu.Base.{
  ℕ, zero, suc, ◌-◌, Bool, true, false, List, [], ◌∷◌, ◌++◌, Option, none, some, Bytes, codes, ◌==◌,
  ltb, leb, if◌then◌else◌, length, get_elem?, take,
}
use network_programming_nctu.Statements.{
  ◌>>=◌, ◌>>◌, pure, get, put, require, deref, or_fail, unset, overrun,
}
use network_programming_nctu.Rwg.State.{wrote}
use network_programming_nctu.Rwg.Shell.{clean_line}
use network_programming_nctu.Solo.State.{System, Run, emit}

abbrev pub newline : ℕ
newline = 10

-- `fgets` with room for `n` bytes before the NUL: what it stores, and what is left to read.
unfoldable pub fgets : ℕ → Bytes → Bytes × Bytes
fgets zero s = ([], s)
fgets (suc n) [] = ([], [])
fgets (suc n) (c ∷ s) =
    let (line, rest) = fgets n s in if c == newline then (c ∷ [], s) else (c ∷ line, rest)

-- The pieces that `while (fgets(…, size, pFile) != NULL)` reads, each of at most `suc n` bytes.
-- `room` is what may still be stored in the current piece, and `cur` is what it holds.
unfoldable pub pieces : ℕ → ℕ → Bytes → Bytes → List Bytes
pieces n room [] [] = []
pieces n room (b ∷ cur) [] = (b ∷ cur) ∷ []
pieces n zero cur (c ∷ s) = (cur ++ c ∷ []) ∷ pieces n n [] s
pieces n (suc room) cur (c ∷ s) =
    let ended = (cur ++ c ∷ []) ∷ pieces n n [] s in
    let longer = pieces n room (cur ++ c ∷ []) s in if c == newline then ended else longer

-- `fgets(batch_command[batch_count], 20, pFile)` until it is NULL.
unfoldable pub read_pieces : Bytes → List Bytes
read_pieces s = pieces 18 18 [] s

-- "batch"
unfoldable pub batch : System → List Bytes → Run (Unit {0})
batch sys argv = do
  name ← deref (get_elem? argv 1)
  require (ltb (length name) 100) overrun
  content ← deref (sys.content name)
  s ← get
  let rows = s.batch_command ++ read_pieces content
  require (leb (length rows) 10) overrun
  put (record s { batch_flag = true; batch_command = rows; batch_command_index = 0 })

abbrev pub c_string : Bytes → Bytes
c_string [] = []
c_string (c ∷ s) = let rest = c_string s in if c == 0 then [] else c ∷ rest

-- `strncpy(line, row, strlen(row)-1); line[strlen(row)-1] = 0;`
abbrev pub without_last : Bytes → Bytes
without_last s = take (length s - 1) s

-- The row number batch_command_index, or `none` behind the last one: the batch is over.
unfoldable pub next_command : Option Bytes → Run (Option Bytes)
next_command (some row) = do
  require (ltb 0 (length (c_string row))) overrun
  s ← get
  put (record s { batch_command_index = suc s.batch_command_index })
  pure (some (without_last (c_string row)))
next_command none = do
  s ← get
  put (record s { batch_command = []; batch_command_index = 0; batch_flag = false; ignore = true })
  pure none

abbrev pub prompt : Bytes
prompt = codes "% "

-- The prompt, and a line of the standard input. At its end `fgets` leaves the array as it is,
-- which nothing has set.
unfoldable pub typed_line : Run (Option Bytes)
typed_line = do
  emit (wrote 1 prompt)
  s ← get
  require (ltb 0 (length s.input)) unset
  put (record s { input = (fgets 15099 s.input).1 })
  line ← or_fail (clean_line ((fgets 15099 s.input).0 ++ 0 ∷ [])) overrun
  pure (some line)

abbrev pub is_empty {ℓ} : {A : Type ℓ} → List A → Bool
is_empty [] = true
is_empty (x ∷ xs) = false

-- A batch file with no line leaves the array `line` unset.
unfoldable pub batch_line : Run (Option Bytes)
batch_line = do
  s ← get
  if is_empty s.batch_command
      then pure none
      else next_command (get_elem? s.batch_command s.batch_command_index)

-- The start of a round: the line, or `none` where the array `line` is not set.
unfoldable pub read_line : Run (Option Bytes)
read_line = do s ← get; if s.batch_flag then batch_line else typed_line
