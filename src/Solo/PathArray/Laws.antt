-- ===== src/Solo/PathArray/Laws.antt =====
-- What the array of pointers does to the shell.
use network_programming_nctu.Base.{
  ℕ, ◌<◌, ◌≡◌, ◌≢◌, refl, ap, ◌∙◌, Bool, false, List, [], ◌∷◌, ◌++◌, some, Bytes, codes, same, All,
  arith,
}
use network_programming_nctu.Strings.{tokens}
use network_programming_nctu.Strings.Laws.{
  IsWord, scan_tokens-append, scan_tokens-sep, tokens-unwords,
}
use network_programming_nctu.Statements.{next, fault, dangling}
use network_programming_nctu.Statements.Ends.{bind_fault, require-false}
use network_programming_nctu.Rwg.State.{set_env}
use network_programming_nctu.Solo.State.{Shell, System}
use network_programming_nctu.Solo.Parse.{Line}
use network_programming_nctu.Solo.PathArray.{
  PathShell, behind_token, path_tokens, set_path_array, is_live, check_dirs, check_file_in_path,
  setenv, run_found, run_row,
}

behind_token_lem :
    (b : ℕ) (cur w r : Bytes)
    → All (λ c. c ≢ b':') w
    → behind_token b':' (b ∷ cur) (w ++ b':' ∷ r) ≡ r
unfolding behind_token
behind_token_lem b cur [] r h = refl
behind_token_lem b cur (c ∷ w) r (p, h) = ground (arith, behind_token_lem b cur w r h)

behind_token-word : (d r : Bytes) → IsWord b':' d → behind_token b':' [] (d ++ b':' ∷ r) ≡ r
unfolding behind_token
behind_token-word [] r (n, h) = absurd (n refl)
behind_token-word (c ∷ d) r (n, (p, h)) = ground (arith, behind_token_lem c [] d r h)

tokens-word : (d r : Bytes) → IsWord b':' d → tokens b':' (d ++ b':' ∷ r) ≡ d ∷ tokens b':' r
unfolding tokens
tokens-word [] r (n, h) = absurd (n refl)
tokens-word (c ∷ d) r (n, h) =
    scan_tokens-append b':' [] (c ∷ d) (b':' ∷ r) h ∙ scan_tokens-sep b':' c d r

-- Only the first `:` parts two directories.
path_tokens_lem :
    (d r : Bytes) → IsWord b':' d → IsWord 32 r → path_tokens (d ++ b':' ∷ r) ≡ d ∷ r ∷ []
unfolding path_tokens
path_tokens_lem d r hd hr =
    rw (tokens-word d r hd, path_tokens, behind_token-word d r hd)
      (ap (◌∷◌ d) (tokens-unwords 32 (r ∷ []) (hr, tt)))

-- A command that is not built in.
abbrev pub IsCommand : Bytes → Type 0
IsCommand name =
    (same name (codes "printenv") ≡ false)
    × (same name (codes "setenv") ≡ false)
    × (same name (codes "exit") ≡ false)

-- The shell `s` in the round `k`, with anything done that leaves PATH_array alone.
abbrev pub in_round : ℕ → Shell → Bytes → PathShell → PathShell
in_round k v rest s = record s { shell = v; round = k; saved = rest }

abbrev pub path_set : Bytes → List Bytes → PathShell → PathShell
path_set path dirs s = record s {
  shell = record s.shell { env = set_env (codes "PATH") path s.shell.env };
  path_array = dirs;
  path_line = some s.round;
  saved = [];
}

setenv_path :
    (sys : System) (access : Bytes → Bool) (l : Line) (n prc fd_in : ℕ) (s : PathShell)
    (path : Bytes)
    → run_row sys access l n prc (codes "setenv" ∷ codes "PATH" ∷ path ∷ []) fd_in s
      ≡ next fd_in (path_set path (path_tokens path) s)
unfolding run_row setenv set_path_array same
setenv_path sys access l n prc fd_in s path = refl

command_dangles :
    (sys : System) (access : Bytes → Bool) (l : Line) (n prc fd_in : ℕ) (s : PathShell)
    (name : Bytes) (args : List Bytes)
    → IsCommand name
    → is_live s.path_array s.path_line s.round ≡ false
    → run_row sys access l n prc (name ∷ args) fd_in s ≡ fault dangling
unfolding run_row
command_dangles sys access l n prc fd_in s name args (a, b, c) h =
    rw (a, b, c)
      (bind_fault (check_file_in_path access name) (run_found sys l n prc (name ∷ args) name fd_in)
        s dangling dead)
  where
    dead : check_file_in_path access name s ≡ fault dangling
    dead =
        unfold check_file_in_path in
        require-false (is_live s.path_array s.path_line s.round) dangling
          (check_dirs access s.path_array name) s h

-- `setenv PATH d:r`, for a first directory d and a text r without a space: the array gets d and the
-- whole of r, whatever `:` is in r, as pointers into the line. In any later round each command that
-- is not built in reads them, when that line is not there any more.
pub setenv_path_breaks :
    (sys : System) (access : Bytes → Bool) (l l' : Line) (n prc fd_in n' prc' fd' k : ℕ)
    (d r rest : Bytes) (s : PathShell) (v : Shell) (name : Bytes) (args : List Bytes)
    → IsWord b':' d
    → IsWord 32 r
    → IsCommand name
    → s.round < k
    → (run_row sys access l n prc (codes "setenv" ∷ codes "PATH" ∷ (d ++ b':' ∷ r) ∷ []) fd_in s
        ≡ next fd_in (path_set (d ++ b':' ∷ r) (d ∷ r ∷ []) s))
      × (run_row sys access l' n' prc'
            (name ∷ args)
            fd'
            (in_round k v rest (path_set (d ++ b':' ∷ r) (d ∷ r ∷ []) s))
          ≡ fault dangling)
setenv_path_breaks sys access l l' n prc fd_in n' prc' fd' k d r rest s v name args hd hr hc lt = (
  setenv_path sys access l n prc fd_in s (d ++ b':' ∷ r)
      ∙ ap (λ dirs. next fd_in (path_set (d ++ b':' ∷ r) dirs s)) (path_tokens_lem d r hd hr),
  command_dangles sys access l' n' prc' fd'
      (in_round k v rest (path_set (d ++ b':' ∷ r) (d ∷ r ∷ []) s)) name args hc (ground arith),
)
