-- ===== src/Solo/Loop.antt =====
-- The infinite loop of npshell.
pub mod Laws
use network_programming_nctu.Base.{
  ℕ, zero, suc, Bool, true, false, List, [], Bytes, codes, Option, if◌then◌else◌,
}
use network_programming_nctu.Strings.{tokens}
use network_programming_nctu.Statements.{M, Step, next, ◌>>=◌, ◌>>◌, pure, get, put, or_fail, unset}
use network_programming_nctu.Rwg.State.{set_env}
use network_programming_nctu.Solo.State.{Shell, System, Run, decrease_pipes}
use network_programming_nctu.Solo.Batch.{read_line}
use network_programming_nctu.Solo.Parse.{Line, initial_line, parse_tokens}
use network_programming_nctu.Solo.Execute.{execute}

unfoldable pub run_line : System → Bytes → Run (Unit {0})
run_line sys line = do
  decrease_pipes (tokens 32 line)
  l ← parse_tokens sys (tokens 32 line) (initial_line sys)
  execute sys l

-- `ignore` is never cleared.
unfoldable pub obey : System → Option Bytes → Run (Unit {0})
obey sys line = do
  s ← get
  if s.ignore then put (record s { ignore = true }) else (or_fail line unset >>= run_line sys)

-- One round.
unfoldable pub round : System → Run (Unit {0})
round sys = read_line >>= obey sys

unfoldable pub rounds : System → ℕ → Run (Unit {0})
rounds sys zero = pure tt
rounds sys (suc n) = round sys >> rounds sys n

-- npshell is called with what the standard input will bring and the environment of the server.
unfoldable pub initial_shell : Bytes → List (Bytes × Bytes) → Shell
initial_shell input env = record {
  num_pipe_vec = [];
  num_pipe_in_flag = false;
  num_pipe_out_flag = false;
  shock_pipe_out_flag = false;
  write_file_flag = false;
  batch_flag = false;
  ignore = false;
  batch_command = [];
  batch_command_index = 0;
  input = input;
  env = set_env (codes "PATH") (codes "bin:.") env;
  made = 0;
  trace = [];
}
