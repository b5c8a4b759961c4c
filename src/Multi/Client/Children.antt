-- ===== src/Multi/Client/Children.antt =====
-- What a forked child does before `execvp`: the four branches of npshell's execution loop.
use network_programming_nctu.Base.{
  ℕ, ◌+◌, List, [], ◌∷◌, ◌++◌, Bytes, ℤ, pos, ◌==ℤ◌, ◌==◌, if◌then◌else◌,
}
use network_programming_nctu.Rwg.State.{NumberPipe}
use network_programming_nctu.Multi.Program.{
  fd, file, ChildOp, open_write, open_read, dup_to, close_fd, announce,
}
use network_programming_nctu.Multi.Client.State.{Vars}

unfoldable pub dup_dead_pipe : List NumberPipe → List ChildOp
dup_dead_pipe [] = []
dup_dead_pipe (t ∷ ts) =
    if t.rest_line ==ℤ pos 0 then dup_to (fd t.read_end) 0 ∷ [] else dup_dead_pipe ts

-- `open(name_pipe_in_file, O_RDONLY, 0664)` and its `dup2`
abbrev pub read_user_pipe : Vars → List ChildOp
read_user_pipe v = open_read v.name_pipe_in_file ∷ dup_to v.name_pipe_in_file 0 ∷ []

unfoldable pub input_ops : Vars → ℕ → List ChildOp
input_ops v fd_in =
    if v.num_pipe_in_flag
    then dup_dead_pipe v.num_pipe_vec
    else if v.name_pipe_in_flag
    then read_user_pipe v
    else dup_to (fd fd_in) 0 ∷ []

unfoldable pub redirection_child : Vars → ℕ → List ChildOp
redirection_child v fd_in =
    open_write (file v.redirection_file_name)
    ∷ (input_ops v fd_in ++ dup_to (file v.redirection_file_name) 1 ∷ [])

unfoldable pub number_pipe_child : Vars → ℕ → List ChildOp
number_pipe_child v fd_in =
    input_ops v fd_in
    ++ ((if v.shock_pipe_out_flag then dup_to (fd v.pipe_out_num) 2 ∷ [] else [])
        ++ dup_to (fd v.pipe_out_num) 1 ∷ [])

unfoldable pub user_pipe_child : Vars → ℕ → ℤ → ℕ → Bytes → List ChildOp
user_pipe_child v ui id fd_in command =
    announce ui id command
    ∷ open_write v.name_pipe_out_file
    ∷ (input_ops v fd_in ++ dup_to v.name_pipe_out_file 1 ∷ [])

-- `n` is process_count, `prc` the number of this process and `p` the pipe to the next one.
unfoldable pub plain_child : Vars → ℕ → ℕ × ℕ → ℕ → ℕ → List ChildOp
plain_child v fd_in p n prc =
    (if v.num_pipe_in_flag
      then dup_dead_pipe v.num_pipe_vec
      else if v.name_pipe_in_flag
      then read_user_pipe v
      else [])
    ++ (if n == 1
        then []
        else (if v.num_pipe_in_flag then [] else dup_to (fd fd_in) 0 ∷ [])
          ++ (close_fd p.0 ∷ (if prc + 1 == n then [] else dup_to (fd p.1) 1 ∷ [])))
