-- ===== src/Solo/Earlier.antt =====
-- nctu_np_project1/npshell.cpp, where it differs from part 1: there is no batch, and a line loses its
-- last byte. The rest of the two files is the same.
pub mod Laws
use network_programming_nctu.Base.{
  ℕ, zero, suc, List, [], ◌∷◌, Bytes, codes, same, if◌then◌else◌, length, ltb, pos,
}
use network_programming_nctu.Strings.{tokens}
use network_programming_nctu.Statements.{
  M, Step, next, ◌>>=◌, ◌>>◌, pure, return, get, put, require, fail, unset, overrun, null_pointer,
}
use network_programming_nctu.Rwg.State.{wrote, waited}
use network_programming_nctu.Solo.State.{Shell, System, Run, emit, decrease_pipes}
use network_programming_nctu.Solo.Batch.{fgets, c_string, without_last, prompt}
use network_programming_nctu.Solo.Parse.{Line, initial_line, parse_tokens}
use network_programming_nctu.Solo.Execute.{keeping, printenv, setenv, run_process}

-- `line[strlen(line)-1] = 0`
unfoldable pub chop : Bytes → Run Bytes
chop line = do require (ltb 0 (length (c_string line))) overrun; pure (without_last (c_string line))

unfoldable pub typed_line : Run Bytes
typed_line = do
  emit (wrote 1 prompt)
  s ← get
  require (ltb 0 (length s.input)) unset
  put (record s { input = (fgets 15099 s.input).1 })
  chop (fgets 15099 s.input).0

unfoldable pub run_row : System → Line → ℕ → ℕ → List Bytes → ℕ → Run ℕ
run_row sys l n prc [] fd_in = fail null_pointer
run_row sys l n prc (name ∷ args) fd_in =
    let argv = name ∷ args in
    if same name (codes "printenv")
    then keeping fd_in (printenv argv)
    else if same name (codes "setenv")
    then keeping fd_in (setenv argv)
    else if same name (codes "exit")
    then return (pos 0)
    else run_process sys l n prc argv fd_in

unfoldable pub run_rows : System → Line → ℕ → ℕ → List (List Bytes) → ℕ → Run ℕ
run_rows sys l n prc [] fd_in = pure fd_in
run_rows sys l n prc (argv ∷ rows) fd_in =
    run_row sys l n prc argv fd_in >>= run_rows sys l n (suc prc) rows

unfoldable pub execute : System → Line → Run (Unit {0})
execute sys l = do
  run_rows sys l (length l.process) 0 l.process 0
  if l.line_end_with_pipe then pure tt else emit waited

unfoldable pub run_line : System → Bytes → Run (Unit {0})
run_line sys line = do
  decrease_pipes (tokens 32 line)
  l ← parse_tokens sys (tokens 32 line) (initial_line sys)
  execute sys l

-- One round of the infinite loop.
unfoldable pub round : System → Run (Unit {0})
round sys = typed_line >>= run_line sys
