-- ===== src/Rwg/Children.antt =====
-- What a forked child does before it runs its program, and checkFileInPATH. The names are those of
-- the four branches of npshell's execution loop: redirection, `|N` and `!N`, `>N`, and the rest.
pub mod Laws
use network_programming_nctu.Base.{
  ℕ, zero, suc, ◌-◌, ◌+◌, Bool, true, false, not, List, [], ◌∷◌, ◌++◌, Option, none, some, Bytes,
  codes, ◌==◌, if◌then◌else◌, ℤ, pos, ◌==ℤ◌, map, length, ltb, ◌||◌,
}
use network_programming_nctu.Strings.{tokens}
use network_programming_nctu.Rwg.State.{
  NumberPipe, User, World, Source, fd, file, ChildOp, open_file, open_unset, dup_to, close_fd,
  tell_sock, overruns, Child, qlen,
}
use network_programming_nctu.Rwg.Users.{id_index, piped_msg}
use network_programming_nctu.Rwg.Parse.{Locals}

-- `for (…) if (num_pipe_vec[i].rest_line == 0) { dup2(num_pipe_vec[i].p[0], STDIN_FILENO); break; }`
unfoldable pub dup_dead_pipe : List NumberPipe → List ChildOp
dup_dead_pipe [] = []
dup_dead_pipe (t ∷ ts) =
    if t.rest_line ==ℤ pos 0 then dup_to (fd t.read_end) 0 ∷ [] else dup_dead_pipe ts

-- user[user_index].name_pipe[name_pipe_sender_id-1]
abbrev pub incoming : User → Locals → ℕ × ℕ
incoming u l = u.name_pipe (id_index l.name_pipe_sender_id - 1)

-- The standard input of a child that is the last of its line and writes elsewhere.
unfoldable pub input_ops : User → Locals → ℕ → List ChildOp
input_ops u l fd_in =
    if l.num_pipe_in_flag
    then dup_dead_pipe u.num_pipe_vec
    else if l.name_pipe_in_flag
    then dup_to (fd (incoming u l).0) 0 ∷ []
    else dup_to (fd fd_in) 0 ∷ []

unfoldable pub redirection_child : User → Locals → ℕ → List ChildOp
redirection_child u l fd_in =
    open_file l.redirection_file_name
    ∷ (input_ops u l fd_in ++ dup_to (file l.redirection_file_name) 1 ∷ [])

unfoldable pub number_pipe_child : User → Locals → ℕ → List ChildOp
number_pipe_child u l fd_in =
    input_ops u l fd_in
    ++ ((if l.shock_pipe_out_flag then dup_to (fd l.pipe_out_num) 2 ∷ [] else [])
        ++ dup_to (fd l.pipe_out_num) 1 ∷ [])

-- broadcast_msg, called in the child.
unfoldable pub child_broadcast : ℕ → ℕ → (ℕ → User) → Bytes → List ChildOp
child_broadcast zero i users msg = []
child_broadcast (suc n) i users msg =
    let rest = child_broadcast n (suc i) users msg in
    if (users i).valid then tell_sock (users i).sock msg ∷ rest else rest

-- `sprintf` into msg[200]
unfoldable pub room : Bytes → List ChildOp
room msg = if ltb (length msg) 200 then [] else overruns ∷ []

unfoldable pub user_pipe_child : World → ℕ → Locals → ℕ → Bytes → List ChildOp
user_pipe_child w ui l fd_in command =
    let u = w.users ui in
    let receiver = w.users (id_index l.name_pipe_out_id - 1) in
    room (piped_msg u receiver command)
    ++ (child_broadcast qlen 0 w.users (piped_msg u receiver command)
        ++ (open_unset ∷ (input_ops u l fd_in ++ dup_to (fd (receiver.name_pipe ui).1) 1 ∷ [])))

-- `n` is process_count, `prc` the number of this process and `p` the pipe to the next one.
unfoldable pub plain_child : User → Locals → ℕ → ℕ × ℕ → ℕ → ℕ → List ChildOp
plain_child u l fd_in p n prc =
    (if l.num_pipe_in_flag
      then dup_dead_pipe u.num_pipe_vec
      else if l.name_pipe_in_flag
      then dup_to (fd (incoming u l).0) 0 ∷ []
      else [])
    ++ (if n == 1
        then []
        else (if l.num_pipe_in_flag then [] else dup_to (fd fd_in) 0 ∷ [])
          ++ (close_fd p.0 ∷ (if prc + 1 == n then [] else dup_to (fd p.1) 1 ∷ [])))

-- The descriptor, or file, that stands behind each number once the child's `dup2`s are done.
unfoldable pub redirected : (ℕ → Source) → List ChildOp → ℕ → Source
redirected at [] = at
redirected at (dup_to (fd a) b ∷ ops) = redirected (λ j. if j == b then at a else at j) ops
redirected at (dup_to (file f) b ∷ ops) = redirected (λ j. if j == b then file f else at j) ops
redirected at (open_file f ∷ ops) = redirected at ops
redirected at (open_unset ∷ ops) = redirected at ops
redirected at (close_fd a ∷ ops) = redirected at ops
redirected at (tell_sock s m ∷ ops) = redirected at ops
redirected at (overruns ∷ ops) = at

-- `access(dir + "/" + file, 0) >= 0` for a directory of PATH.
-- `none`: the name is written behind real_path[200].
unfoldable pub check_dirs : (Bytes → Bool) → List Bytes → Bytes → Option Bool
check_dirs access [] name = some false
check_dirs access (dir ∷ dirs) name =
    let rest = check_dirs access dirs name in
    let real_path = dir ++ (codes "/" ++ name) in
    if ltb (length real_path) 200 then (if access real_path then some true else rest) else none

-- `none`: PATH, or a name, is longer than its array of 200 bytes.
unfoldable pub check_file_in_path : (Bytes → Bool) → Bytes → Bytes → Option Bool
unfolding check_dirs
check_file_in_path access path name =
    if ltb (length path) 200 then check_dirs access (tokens b':' path) name else none

-- How a child goes on from `execvp`, which came back with -1 or did not come back.
pub data ChildEnd : Type 0 where
  runs : ChildEnd
  -- the message goes to descriptor 2, and the child exits
  unknown_command : Bytes → ChildEnd
  -- no branch ends the child: it goes on in the loop as a second shell
  second_shell : ChildEnd
  -- a write behind PATH, real_path or err_message
  breaks : ChildEnd

-- `sprintf` into err_message[100]
unfoldable pub complain : Bytes → ChildEnd
complain msg = if ltb (length msg) 100 then unknown_command msg else breaks

unfoldable pub after_exec : Bool → (Bytes → Bool) → Bytes → Bytes → ChildEnd
after_exec execed access path name =
    if execed then runs else elim (check_file_in_path access path name) [
      | none ↦ breaks
      | some true ↦ second_shell
      | some false ↦ complain (codes "Unknown command: [" ++ (name ++ codes "].\n"))
    ]
