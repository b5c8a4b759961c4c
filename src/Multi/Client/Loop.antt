-- ===== src/Multi/Client/Loop.antt =====
-- The infinite loop of npshell.
pub mod Laws
use network_programming_nctu.Base.{
  ℕ, zero, suc, Bool, true, false, ◌||◌, List, [], ◌∷◌, ◌++◌, Option, none, some, Bytes, codes,
  if◌then◌else◌, length, get_elem?, ltb,
}
use network_programming_nctu.Strings.{tokens, format_line}
use network_programming_nctu.Statements.{overrun, bad_format}
use network_programming_nctu.Rwg.State.{set_env}
use network_programming_nctu.Rwg.Shell.{clean_line}
use network_programming_nctu.Solo.Batch.{prompt, c_string, without_last, is_empty}
use network_programming_nctu.Multi.Memory.{User, Memory}
use network_programming_nctu.Multi.Program.{
  Program, look, unset_file, wrote, ◌>>=◌, ◌>>◌, pure, get, put, read_socket, emit, require,
  or_fail,
}
use network_programming_nctu.Multi.Client.State.{Vars, System, Run, start_line, decrease_pipes}
use network_programming_nctu.Multi.Client.Parse.{parse_line}
use network_programming_nctu.Multi.Client.Execute.{execute}

-- `read` fills the array `line`, which was zeroed, from its start.
unfoldable pub typed_line : ℕ → Run Bytes
typed_line sock = do
  emit (wrote sock prompt)
  buf ← read_socket
  or_fail (clean_line (buf ++ 0 ∷ [])) overrun

-- The row number batch_command_index; behind the last one the batch is over, and the line is empty.
unfoldable pub next_command : Option Bytes → Run Bytes
next_command (some row) = do
  require (ltb 0 (length (c_string row))) overrun
  v ← get
  put (record v { batch_command_index = suc v.batch_command_index })
  pure (without_last (c_string row))
next_command none = do
  v ← get
  put (record v { batch_command = []; batch_command_index = 0; batch_flag = false; ignore = true })
  pure []

unfoldable pub batch_line : Run Bytes
batch_line = do
  v ← get
  if is_empty v.batch_command
      then pure []
      else next_command (get_elem? v.batch_command v.batch_command_index)

unfoldable pub read_line : ℕ → Run Bytes
read_line sock = do v ← get; if v.batch_flag then batch_line else typed_line sock

unfoldable pub run_line : System → ℕ → ℕ → Bytes → Bytes → Run (Unit {0})
run_line sys ui sock line command = do
  decrease_pipes (tokens 32 line)
  parse_line sys ui command (tokens 32 line)
  execute sys ui sock command

-- An empty line sets `ignore`; a line that is ignored clears it.
unfoldable pub obey : System → ℕ → ℕ → Bytes → Bytes → Run (Unit {0})
obey sys ui sock line command = do
  v ← get
  if is_empty line || v.ignore
      then put (record v { ignore = false })
      else run_line sys ui sock line command

unfoldable pub round : System → ℕ → ℕ → Run (Unit {0})
round sys ui sock = do
  start_line
  line ← read_line sock
  command ← or_fail (format_line line) bad_format
  obey sys ui sock line command

unfoldable pub rounds : System → ℕ → ℕ → ℕ → Run (Unit {0})
rounds sys ui sock zero = pure tt
rounds sys ui sock (suc n) = round sys ui sock >> rounds sys ui sock n

abbrev pub initial_vars : User → List (Bytes × Bytes) → Vars
initial_vars u env = record {
  num_pipe_vec = [];
  num_pipe_in_flag = false;
  num_pipe_out_flag = false;
  shock_pipe_out_flag = false;
  write_file_flag = false;
  name_pipe_out_flag = false;
  name_pipe_in_flag = false;
  batch_flag = u.batch_flag;
  ignore = u.ignore;
  batch_command = [];
  batch_command_index = 0;
  env = set_env (codes "PATH") (codes "bin:.") env;
  made = 0;
  line_end_with_pipe = false;
  pipe_out_num = 1;
  redirection_file_name = [];
  name_pipe_in_file = unset_file;
  name_pipe_out_file = unset_file;
  name_pipe_out_id = none;
  row = [];
  process = [];
  wants_file = false;
}

-- npshell, for as many rounds: it goes on until it returns.
unfoldable pub npshell : System → ℕ → List (Bytes × Bytes) → ℕ → Program (Unit {0} × Vars)
npshell sys ui env n = look (λ m. rounds sys ui (m.users ui).sock n (initial_vars (m.users ui) env))
