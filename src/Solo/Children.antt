-- ===== src/Solo/Children.antt =====
-- What a forked child does before `execvp`: the three branches of npshell's execution loop.
use network_programming_nctu.Base.{ℕ, ◌+◌, List, [], ◌∷◌, ◌++◌, ◌==◌, if◌then◌else◌}
use network_programming_nctu.Rwg.State.{fd, file, ChildOp, open_file, dup_to, close_fd}
use network_programming_nctu.Rwg.Children.{dup_dead_pipe}
use network_programming_nctu.Solo.State.{Shell}
use network_programming_nctu.Solo.Batch.{c_string}
use network_programming_nctu.Solo.Parse.{Line}

unfoldable pub input_ops : Shell → ℕ → List ChildOp
input_ops s fd_in =
    if s.num_pipe_in_flag then dup_dead_pipe s.num_pipe_vec else dup_to (fd fd_in) 0 ∷ []

unfoldable pub redirection_child : Shell → Line → ℕ → List ChildOp
redirection_child s l fd_in =
    open_file (c_string l.redirection_file_name)
    ∷ (input_ops s fd_in ++ dup_to (file (c_string l.redirection_file_name)) 1 ∷ [])

unfoldable pub number_pipe_child : Shell → Line → ℕ → List ChildOp
number_pipe_child s l fd_in =
    input_ops s fd_in
    ++ ((if s.shock_pipe_out_flag then dup_to (fd l.pipe_out_num) 2 ∷ [] else [])
        ++ dup_to (fd l.pipe_out_num) 1 ∷ [])

-- `n` is process_count, `prc` the number of this process and `p` the pipe to the next one.
unfoldable pub plain_child : Shell → ℕ → ℕ × ℕ → ℕ → ℕ → List ChildOp
plain_child s fd_in p n prc =
    (if s.num_pipe_in_flag then dup_dead_pipe s.num_pipe_vec else [])
    ++ (if n == 1
        then []
        else (if s.num_pipe_in_flag then [] else dup_to (fd fd_in) 0 ∷ [])
          ++ (close_fd p.0 ∷ (if prc + 1 == n then [] else dup_to (fd p.1) 1 ∷ [])))
