-- ===== src/Solo/Parse.antt =====
-- npshell's loop "combine token to process array", where no `<` and no `>N` is an operator. The
-- token index is the list of the tokens that are left, and `row` the row that is being filled.
use network_programming_nctu.Base.{
  ℕ, Bool, true, false, List, [], ◌∷◌, ◌++◌, Bytes, codes, same, if◌then◌else◌, length, ltb,
}
use network_programming_nctu.Strings.{first_token, atoi, overlay}
use network_programming_nctu.Statements.{
  ◌>>=◌, ◌>>◌, pure, get, put, require, deref, fail, null_pointer, overrun,
}
use network_programming_nctu.Rwg.State.{touched}
use network_programming_nctu.Rwg.Parse.{head_is, is_operator, max_process_in_line, row_size}
use network_programming_nctu.Solo.State.{System, Run, emit, attach_pipe}
use network_programming_nctu.Solo.Batch.{c_string}

-- The variables of a line.
pub record Line : Type 0 where
  pub line_end_with_pipe : Bool
  pub pipe_out_num : ℕ
  pub redirection_file_name : Bytes
  pub row : List Bytes
  pub process : List (List Bytes)
  pub wants_file : Bool

abbrev pub initial_line : System → Line
initial_line sys = record {
  line_end_with_pipe = false;
  pipe_out_num = 1;
  redirection_file_name = sys.leftover;
  row = [];
  process = [];
  wants_file = false;
}

unfoldable pub store_word : Bytes → Line → Run Line
store_word t l = do
  require (ltb (length l.process) max_process_in_line) overrun
  require (ltb (length l.row) row_size) overrun
  pure (record l { row = l.row ++ t ∷ [] })

unfoldable pub end_row : Line → Run Line
end_row l = do
  require (ltb (length l.process) max_process_in_line) overrun
  require (ltb (length l.row) row_size) overrun
  pure (record l { row = []; process = l.process ++ l.row ∷ [] })

-- The operand of `>`: `strncpy` of 100 bytes at most, with no NUL behind them.
unfoldable pub redirect_to : Bytes → Line → Run Line
redirect_to t l = do
  require (ltb (length t) 101) overrun
  let name = overlay t l.redirection_file_name
  emit (touched (c_string name))
  pure (record l { redirection_file_name = name; wants_file = false })

unfoldable pub shock_pipe : System → Bytes → Line → Run Line
shock_pipe sys t l = do
  n ← deref (first_token b'!' t)
  out ← attach_pipe sys (atoi n)
  s ← get
  put (record s { shock_pipe_out_flag = true })
  pure (record l { line_end_with_pipe = true; pipe_out_num = out })

unfoldable pub number_pipe : System → Bytes → Line → Run Line
number_pipe sys t l = do
  n ← deref (first_token b'|' t)
  out ← attach_pipe sys (atoi n)
  s ← get
  put (record s { num_pipe_out_flag = true })
  pure (record l { line_end_with_pipe = true; pipe_out_num = out })

unfoldable pub redirect : Line → Run Line
redirect l = do
  s ← get
  put (record s { write_file_flag = true })
  pure (record l { wants_file = true })

-- What is neither `|` nor `>` nor begins with `!` counts as `|N`, also a `>` with a name behind it.
unfoldable pub operator : System → Bytes → Line → Run Line
operator sys t l =
    if same t (codes "|")
    then pure l
    else if same t (codes ">")
    then redirect l
    else if head_is b'!' t
    then shock_pipe sys t l
    else number_pipe sys t l

unfoldable pub parse_token : System → Bytes → Line → Run Line
parse_token sys t l =
    if l.wants_file
    then redirect_to t l
    else if is_operator t
    then (end_row l >>= operator sys t)
    else store_word t l

abbrev pub end_words : List Bytes → Line → Run Line
end_words [] l = pure l
end_words (t ∷ ts) l = end_row l

unfoldable pub end_line : Line → Run Line
end_line l = if l.wants_file then fail null_pointer else end_words l.row l

unfoldable pub parse_tokens : System → List Bytes → Line → Run Line
parse_tokens sys [] l = end_line l
parse_tokens sys (t ∷ ts) l = parse_token sys t l >>= parse_tokens sys ts
