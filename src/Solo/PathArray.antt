-- ===== src/Solo/PathArray.antt =====
-- nctu_np_project1/server.cpp: the first version of the shell. It keeps the directories of PATH in an
-- array of pointers, looks a command up there before it forks, and is otherwise the shell of
-- nctu_np_project1/npshell.cpp, whose definitions serve.
pub mod Laws
use network_programming_nctu.Base.{
  ℕ, zero, suc, ◌+◌, Bool, true, false, ◌&&◌, not, List, [], ◌∷◌, ◌++◌, Option, none, some, Bytes,
  codes, same, if◌then◌else◌, length, get_elem?, ltb, ◌==◌, pos,
}
use network_programming_nctu.Strings.{tokens}
use network_programming_nctu.Statements.{
  M, Step, next, stop, fault, ◌>>=◌, ◌>>◌, pure, return, get, put, require, fail, unset, overrun,
  null_pointer, dangling,
}
use network_programming_nctu.Rwg.State.{printed, wrote, waited, get_env}
use network_programming_nctu.Rwg.Parse.{head_is, is_operator}
use network_programming_nctu.Solo.State.{Shell, System, Run, emit, decrease_pipes}
use network_programming_nctu.Solo.Batch.{fgets, prompt}
use network_programming_nctu.Solo.Parse.{Line, initial_line, parse_tokens}
use network_programming_nctu.Solo.Execute.{set_given, run_process}
use network_programming_nctu.Solo.Earlier.{chop}

-- `path_array` holds the texts that the entries of PATH_array point to. They lie in `root`, or in the
-- array `line` of the round `path_line`, which is there in that round only. `saved` is what strtok
-- has not looked at yet.
pub record PathShell : Type 0 where
  pub shell : Shell
  pub path_array : List Bytes
  pub path_line : Option ℕ
  pub round : ℕ
  pub saved : Bytes

abbrev pub RunPath {ℓ} : Type ℓ → Type ℓ
RunPath A = M PathShell A

abbrev pub resume {ℓ} : {A : Type ℓ} → PathShell → Step Shell A → Step PathShell A
resume s (next a v) = next a (record s { shell = v })
resume s (stop r v) = stop r (record s { shell = v })
resume s (fault e) = fault e

-- A statement that does not touch PATH_array.
abbrev pub plainly {ℓ} : {A : Type ℓ} → Run A → RunPath A
plainly m s = resume s (m s.shell)

-- What follows the first token.
unfoldable pub behind_token : ℕ → Bytes → Bytes → Bytes
behind_token sep cur [] = []
behind_token sep [] (c ∷ s) =
    let inside = behind_token sep (c ∷ []) s in
    let before = behind_token sep [] s in if c == sep then before else inside
behind_token sep (b ∷ cur) (c ∷ s) =
    let inside = behind_token sep (b ∷ cur) s in if c == sep then s else inside

-- The texts of `strtok(s, ":")`, `strtok(NULL, " ")`, `strtok(NULL, " ")`, … up to the first NULL.
unfoldable pub path_tokens : Bytes → List Bytes
path_tokens s = elim (tokens b':' s) [ [] ↦ [] | t ∷ ts ↦ t ∷ tokens 32 (behind_token b':' [] s) ]

-- set_PATH_array on a text of the line; NULL goes on with what strtok has left.
abbrev pub given_or : Bytes → Option Bytes → Bytes
given_or saved none = saved
given_or saved (some path) = path

unfoldable pub set_path_array : Option Bytes → RunPath (Unit {0})
set_path_array path = do
  s ← get
  put (record s {
    path_array = path_tokens (given_or s.saved path);
    path_line = some s.round;
    saved = [];
  })

-- checkFileInPATH; `access` tells whether `access(path, 0) >= 0`. The array `path` has 100 bytes.
unfoldable pub check_dirs : (Bytes → Bool) → List Bytes → Bytes → RunPath Bool
check_dirs access [] file = pure false
check_dirs access (dir ∷ dirs) file = do
  require (ltb (length dir + suc (length file)) 100) overrun
  if access (dir ++ (codes "/" ++ file)) then pure true else check_dirs access dirs file

-- A text in the line of an earlier round is not there any more.
abbrev pub is_live : List Bytes → Option ℕ → ℕ → Bool
is_live [] line round = true
is_live (dir ∷ dirs) none round = true
is_live (dir ∷ dirs) (some r) round = r == round

unfoldable pub check_file_in_path : (Bytes → Bool) → Bytes → RunPath Bool
check_file_in_path access file = do
  s ← get
  require (is_live s.path_array s.path_line s.round) dangling
  check_dirs access s.path_array file

-- `printf("%s\n", getenv(…))`: a variable that is not set gives it a NULL.
abbrev pub print_value : Option Bytes → Run (Unit {0})
print_value none = fail null_pointer
print_value (some v) = emit (printed (v ++ codes "\n"))

abbrev pub print_variable : Option Bytes → Run (Unit {0})
print_variable none = pure tt
print_variable (some key) = do s ← get; print_value (get_env key s.env)

unfoldable pub printenv : List Bytes → Run (Unit {0})
printenv argv = print_variable (get_elem? argv 1)

-- `if (strcmp(process[prc][1], "PATH") == 0) set_PATH_array(process[prc][2], PATH_array);`
abbrev pub update_path : Option Bytes → Option Bytes → RunPath (Unit {0})
update_path none path = fail null_pointer
update_path (some key) path = if same key (codes "PATH") then set_path_array path else pure tt

unfoldable pub setenv : List Bytes → RunPath (Unit {0})
setenv argv = do
  plainly (set_given (get_elem? argv 1) (get_elem? argv 2))
  update_path (get_elem? argv 1) (get_elem? argv 2)

abbrev pub keeping : ℕ → RunPath (Unit {0}) → RunPath ℕ
keeping fd_in m = do m; pure fd_in

unfoldable pub run_found : System → Line → ℕ → ℕ → List Bytes → Bytes → ℕ → Bool → RunPath ℕ
run_found sys l n prc argv name fd_in true = plainly (run_process sys l n prc argv fd_in)
run_found sys l n prc argv name fd_in false =
    keeping fd_in (plainly (emit (printed (codes "Unknown command: [" ++ (name ++ codes "].\n")))))

unfoldable pub run_row : System → (Bytes → Bool) → Line → ℕ → ℕ → List Bytes → ℕ → RunPath ℕ
run_row sys access l n prc [] fd_in = fail null_pointer
run_row sys access l n prc (name ∷ args) fd_in =
    let argv = name ∷ args in
    if same name (codes "printenv")
    then keeping fd_in (plainly (printenv argv))
    else if same name (codes "setenv")
    then keeping fd_in (setenv argv)
    else if same name (codes "exit")
    then return (pos 0)
    else (check_file_in_path access name >>= run_found sys l n prc argv name fd_in)

unfoldable pub run_rows : System → (Bytes → Bool) → Line → ℕ → ℕ → List (List Bytes) → ℕ → RunPath ℕ
run_rows sys access l n prc [] fd_in = pure fd_in
run_rows sys access l n prc (argv ∷ rows) fd_in =
    run_row sys access l n prc argv fd_in >>= run_rows sys access l n (suc prc) rows

unfoldable pub execute : System → (Bytes → Bool) → Line → RunPath (Unit {0})
execute sys access l = do
  run_rows sys access l (length l.process) 0 l.process 0
  plainly (if l.line_end_with_pipe then pure tt else emit waited)

-- What the parsing of a line leaves to strtok: the rest of its last `|N` or `!N`. `operand` is set
-- behind a `>`.
unfoldable pub saved_after : Bool → Bytes → List Bytes → Bytes
saved_after operand saved [] = saved
saved_after operand saved (t ∷ ts) =
    let is_number = is_operator t && (not (same t (codes "|")) && not (same t (codes ">"))) in
    saved_after (not operand && same t (codes ">"))
      (if not operand && is_number
        then behind_token (if head_is b'!' t then b'!' else b'|') [] t
        else saved)
      ts

unfoldable pub typed_line : Run Bytes
typed_line = do
  emit (wrote 1 prompt)
  s ← get
  require (ltb 0 (length s.input)) unset
  put (record s { input = (fgets 14999 s.input).1 })
  chop (fgets 14999 s.input).0

abbrev pub save : Bytes → RunPath (Unit {0})
save rest s = next tt (record s { saved = rest })

unfoldable pub run_line : System → (Bytes → Bool) → Bytes → RunPath (Unit {0})
run_line sys access line = do
  plainly (decrease_pipes (tokens 32 line))
  l ← plainly (parse_tokens sys (tokens 32 line) (initial_line sys))
  save (saved_after false [] (tokens 32 line))
  execute sys access l

-- One round of the infinite loop, with a new `line`.
unfoldable pub round : System → (Bytes → Bool) → RunPath (Unit {0})
round sys access = do
  s ← get
  put (record s { round = suc s.round })
  plainly typed_line >>= run_line sys access

-- The texts of PATH_array are those of `root` at the start.
unfoldable pub initial : Shell → PathShell
initial v = record {
  shell = v;
  path_array = path_tokens (codes "bin:.");
  path_line = none;
  round = 0;
  saved = [];
}
