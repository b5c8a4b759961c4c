-- ===== src/Tests/RwgWitnesses.antt =====
-- The theorems on the shell and its server at concrete inputs.
use network_programming_nctu.Base.{
  ℕ, ◌<◌, ◌≡◌, refl, inl, true, false, not, List, [], ◌∷◌, ◌++◌, codes, Bytes, some, ◌==ℤ◌, pos,
  ◌==◌, if◌then◌else◌, keep, arith, first_from, All,
}
use network_programming_nctu.Rwg.State.{NumberPipe, User, World, next, fd}
use network_programming_nctu.Rwg.Users.{find_fd_user}
use network_programming_nctu.Rwg.Pipes.{find_pipe, decrease}
use network_programming_nctu.Rwg.Pipes.Laws.{lines_later}
use network_programming_nctu.Rwg.Parse.{Locals, parse_line}
use network_programming_nctu.Rwg.Parse.Laws.{IsCommand, parse_line-pipeline}
use network_programming_nctu.Rwg.Children.{
  number_pipe_child, user_pipe_child, plain_child, redirected,
}
use network_programming_nctu.Rwg.Children.Laws.{
  inherited, InputIs, first_child_wiring, last_child_wiring, user_pipe_child_wiring,
}
use network_programming_nctu.Rwg.Shell.{initial_locals, npshell}
use network_programming_nctu.Rwg.Users.{piped_msg, person}
use network_programming_nctu.Rwg.Pipes.{attach_pipe}
use network_programming_nctu.Rwg.Pipes.Attach.{attach_pipe_lem}
use network_programming_nctu.Rwg.Children.{dup_dead_pipe}
use network_programming_nctu.Rwg.State.{dup_to}
use network_programming_nctu.Strings.Decimal.{decimal, digits_with}
use network_programming_nctu.Rwg.State.{closed, attached, detached}
use network_programming_nctu.Base.{length, ◌<◌}
use network_programming_nctu.Rwg.Server.{
  Server, Served, serving, broken, blank_user, start, serve_all, serve, serve_fd, accept_client,
  find_space, admit, say, login_broadcast,
}
use network_programming_nctu.Rwg.Server.Laws.{serve_fd_closed}
use network_programming_nctu.Rwg.Invariant.{Inv}
use network_programming_nctu.Rwg.Invariant.Serving.{Leaves, npshell-Inv}
use network_programming_nctu.Rwg.Invariant.Reachable.{Serves, serve_all-start-Inv}
use network_programming_nctu.Tests.RwgRuns.{sys, two_users, traffic}

serve_all-start-Inv_example : Serves Inv (serve_all sys (start []) traffic)
serve_all-start-Inv_example = serve_all-start-Inv sys [] traffic

-- The server with two users in its first two rows.
abbrev after_two : Served → Server
after_two (serving s) = s
after_two (broken e) = start []

two : Server
unfolding serve_all serve accept_client find_space first_from start
two = after_two (serve_all sys (start []) two_users)

two-Inv : Inv two.world
unfolding two serve_all serve accept_client find_space first_from start admit say login_broadcast
two-Inv = serve_all-start-Inv sys [] two_users

two_valid : ((two.world.users 0).valid ≡ true) × ((two.world.users 1).valid ≡ true)
unfolding two serve_all serve accept_client find_space first_from start admit say login_broadcast
two_valid = (refl, refl)

npshell-Inv_example :
    Leaves Inv (npshell sys 0 (pos 14) (codes "name joe" ++ 13 ∷ 10 ∷ []) two.world)
npshell-Inv_example =
    npshell-Inv sys 0 (pos 14) (codes "name joe" ++ 13 ∷ 10 ∷ []) two.world two-Inv
      (omega arith, two_valid.0)

-- A pipe that has come to 0, a user who has it, and the variables of a line that it starts.
abbrev dead : NumberPipe
dead = record { rest_line = pos 0; read_end = 100; write_end = 101 }

abbrev piped_user : User
piped_user = record (blank_user 0) { valid = true; num_pipe_vec = dead ∷ [] }

dead_found : find_pipe (pos 0) (dead ∷ []) ≡ some dead
unfolding find_pipe ◌==ℤ◌
dead_found = refl

dead_input : InputIs piped_user (initial_locals true) 0 100
dead_input = inl (dead, refl, dead_found, refl)

first_child_wiring_example :
    (redirected inherited (plain_child piped_user (initial_locals true) 0 (102, 103) 2 0) 0
      ≡ fd 100)
    × (redirected inherited (plain_child piped_user (initial_locals true) 0 (102, 103) 2 0) 1
        ≡ fd 103)
first_child_wiring_example =
    first_child_wiring piped_user (initial_locals true) 2 0 100 (102, 103) (omega arith) dead_input

abbrev to_pipe : Locals
to_pipe = record (initial_locals true) { pipe_out_num = 105; redirection_file_name = codes "out" }

last_child_wiring_example :
    (redirected inherited (number_pipe_child piped_user to_pipe 0) 0 ≡ fd 100)
    × (redirected inherited (number_pipe_child piped_user to_pipe 0) 1 ≡ fd 105)
    × (redirected inherited (number_pipe_child piped_user to_pipe 0) 2 ≡ fd 2)
last_child_wiring_example =
    last_child_wiring piped_user to_pipe 0 100 (inl (dead, refl, dead_found, refl)) (omega arith)

-- The user in row 1 keeps the pipe (106, 107) from the user in row 0.
abbrev receiving : World
receiving = record (two.world) {
  users = λ i.
      if i == 1
      then record (blank_user 1) { valid = true; name_pipe = λ _. (106, 107) }
      else piped_user;
}

abbrev to_user : Locals
to_user = record (initial_locals true) { name_pipe_out_id = pos 2; name_pipe_out_flag = true }

message_fits : length (piped_msg (receiving.users 0) (receiving.users 1) (codes "ls >2")) < 200
unfolding piped_msg person decimal digits_with
message_fits = omega arith

user_pipe_child_wiring_example :
    (redirected inherited (user_pipe_child receiving 0 to_user 0 (codes "ls >2")) 0 ≡ fd 100)
    × (redirected inherited (user_pipe_child receiving 0 to_user 0 (codes "ls >2")) 1 ≡ fd 107)
user_pipe_child_wiring_example =
    user_pipe_child_wiring receiving 0 to_user 0 100 (codes "ls >2")
      (inl (dead, refl, dead_found, refl)) message_fits (omega arith)

-- Row 0 is in use, and row 1 is free and holds the pipe of a user who has left.
abbrev left : Server
left = record {
  world = record (two.world) {
    users = λ i. if i == 0 then piped_user else record piped_user { valid = false };
  };
  afds = [];
}

below_one : (j : ℕ) → j < 1 → (left.world.users j).valid ≡ true
below_one j h = ground arith

five_found : find_fd_user two.world 5 ≡ some 0
unfolding two serve_all serve accept_client find_space first_from start admit say login_broadcast
    find_fd_user
five_found = refl

five_flag : (two.world.users 0).batch_flag ≡ false
unfolding two serve_all serve accept_client find_space first_from start admit say login_broadcast
five_flag = refl

serve_fd_closed_example :
    (t : Server) × (serve_fd sys two 5 (pos 0) (0 ∷ []) ≡ serving t)
    × (t.world.users ≡ two.world.users)
    × (t.world.trace ≡ closed 5 ∷ detached ∷ attached 5 ∷ two.world.trace)
    × (t.afds ≡ keep (λ a. not (a == 5)) two.afds)
serve_fd_closed_example = serve_fd_closed sys two 5 0 [] five_found five_flag

attach_pipe_lem_example :
    (out : ℕ) × (w' : World) × (t : NumberPipe) × (attach_pipe sys 0 (pos 2) two.world
      ≡ next out w')
    × (find_pipe (pos 2) (w'.users 0).num_pipe_vec ≡ some t)
    × (out ≡ t.write_end)
    × (dup_dead_pipe (lines_later 2 (w'.users 0).num_pipe_vec) ≡ dup_to (fd t.read_end) 0 ∷ [])
    × ((decrease (lines_later 1 (w'.users 0).num_pipe_vec)).1 ≡ true)
attach_pipe_lem_example = attach_pipe_lem sys 0 1 two.world

abbrev ls_row : List Bytes
ls_row = codes "ls" ∷ codes "-l" ∷ []

abbrev cat_row : List Bytes
cat_row = codes "cat" ∷ []

abbrev number_row : List Bytes
number_row = codes "number" ∷ []

rows-IsCommand : All IsCommand (ls_row ∷ cat_row ∷ number_row ∷ [])
rows-IsCommand = (
  (cc, omega arith, ((refl, refl), ((refl, refl), tt))),
  ((cc, omega arith, ((refl, refl), tt)), ((cc, omega arith, ((refl, refl), tt)), tt)),
)

parse_line-pipeline_example :
    parse_line sys
      (pos 20)
      0
      (codes "ls -l | cat | number")
      (codes "ls" ∷ codes "-l" ∷ codes "|" ∷ codes "cat" ∷ codes "|" ∷ codes "number" ∷ [])
      (initial_locals false)
      two.world
    ≡ next
        (record (initial_locals false) { process = ls_row ∷ cat_row ∷ number_row ∷ [] })
        two.world
parse_line-pipeline_example =
    parse_line-pipeline sys (pos 20) 0 (codes "ls -l | cat | number") false two.world (codes "ls")
      (codes "-l" ∷ []) (cat_row ∷ number_row ∷ []) rows-IsCommand (cc) (cc) (omega arith)
