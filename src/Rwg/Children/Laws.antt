-- ===== src/Rwg/Children/Laws.antt =====
-- Where the descriptors of a child lead once it runs its program.
use network_programming_nctu.Base.{
  ℕ, zero, suc, ◌<◌, length, ◌+◌, ◌-◌, ◌≡◌, ◌≢◌, ◌≤◌, refl, ◌⊎◌, inl, inr, true, false, ◌==◌,
  Bool-cases, List, [], ◌∷◌, ◌++◌, some, Bytes, if◌then◌else◌, pos, ==ℤ_comm, arith,
}
use network_programming_nctu.Rwg.State.{NumberPipe, User, World, Source, fd, ChildOp, dup_to, qlen}
use network_programming_nctu.Rwg.Users.{id_index, piped_msg}
use network_programming_nctu.Rwg.Pipes.{find_pipe}
use network_programming_nctu.Rwg.Parse.{Locals}
use network_programming_nctu.Rwg.Children.{
  dup_dead_pipe, incoming, input_ops, number_pipe_child, child_broadcast, user_pipe_child,
  plain_child, redirected, room,
}

-- The descriptors as the child inherits them.
abbrev pub inherited : ℕ → Source
inherited j = fd j

redirected-child_broadcast :
    (n i : ℕ) (users : ℕ → User) (msg : Bytes) (at : ℕ → Source) (ops : List ChildOp)
    → redirected at (child_broadcast n i users msg ++ ops) ≡ redirected at ops
unfolding child_broadcast redirected
redirected-child_broadcast zero i users msg at ops = refl
redirected-child_broadcast (suc n) i users msg at ops = elim (Bool-cases (users i).valid) [
  | inl h ↦ rw (h, child_broadcast) (redirected-child_broadcast n (suc i) users msg at ops)
  | inr h ↦ rw (h, child_broadcast) (redirected-child_broadcast n (suc i) users msg at ops)
]

-- The loop finds the pipe at 0 that find_pipe would.
pub dup_dead_pipe_lem :
    (ts : List NumberPipe) (t : NumberPipe)
    → find_pipe (pos 0) ts ≡ some t
    → dup_dead_pipe ts ≡ dup_to (fd t.read_end) 0 ∷ []
unfolding find_pipe dup_dead_pipe
dup_dead_pipe_lem [] t e = cc
dup_dead_pipe_lem (x ∷ ts) t e =
    ground (arith, ==ℤ_comm (pos 0) x.rest_line, dup_dead_pipe_lem ts t)

module _ (u : User) (l : Locals) (fd_in : ℕ) where
  -- The first `dup2` of a child that reads a number pipe.
  input_ops_number :
      (t : NumberPipe)
      → l.num_pipe_in_flag ≡ true
      → find_pipe (pos 0) u.num_pipe_vec ≡ some t
      → input_ops u l fd_in ≡ dup_to (fd t.read_end) 0 ∷ []
  unfolding input_ops
  input_ops_number t h e = rw h (dup_dead_pipe_lem u.num_pipe_vec t e)

  input_ops_user :
      l.num_pipe_in_flag ≡ false
      → l.name_pipe_in_flag ≡ true
      → input_ops u l fd_in ≡ dup_to (fd (incoming u l).0) 0 ∷ []
  unfolding input_ops
  input_ops_user h k = rw (h, k)

  input_ops_none :
      l.num_pipe_in_flag ≡ false
      → l.name_pipe_in_flag ≡ false
      → input_ops u l fd_in ≡ dup_to (fd fd_in) 0 ∷ []
  unfolding input_ops
  input_ops_none h k = rw (h, k)

  -- The descriptors of the child of each branch that ends a line, from what its input is.
  module _ (a : ℕ) (e : input_ops u l fd_in ≡ dup_to (fd a) 0 ∷ []) where
    number_wiring :
        3 ≤ l.pipe_out_num
        → (redirected inherited (number_pipe_child u l fd_in) 0 ≡ fd a)
          × (redirected inherited (number_pipe_child u l fd_in) 1 ≡ fd l.pipe_out_num)
          × (redirected inherited (number_pipe_child u l fd_in) 2
              ≡ (if l.shock_pipe_out_flag then fd l.pipe_out_num else fd 2))
    unfolding number_pipe_child redirected
    number_wiring h = rw e (ground arith)

room_lem : (msg : Bytes) → length msg < 200 → room msg ≡ []
unfolding room
room_lem msg h = ground arith

-- What the standard input of a child should be: the pipe that has come to 0, or the user pipe that
-- the line names, or what comes from the process before it.
abbrev pub InputIs : User → Locals → ℕ → ℕ → Type 0
InputIs u l fd_in a =
    ((t : NumberPipe) × (l.num_pipe_in_flag ≡ true)
      × (find_pipe (pos 0) u.num_pipe_vec ≡ some t)
      × (a ≡ t.read_end))
    ⊎ (((l.num_pipe_in_flag ≡ false) × (l.name_pipe_in_flag ≡ true) × (a ≡ (incoming u l).0))
        ⊎ ((l.num_pipe_in_flag ≡ false) × (l.name_pipe_in_flag ≡ false) × (a ≡ fd_in)))

input_ops_lem :
    (u : User) (l : Locals) (fd_in a : ℕ)
    → InputIs u l fd_in a
    → input_ops u l fd_in ≡ dup_to (fd a) 0 ∷ []
input_ops_lem u l fd_in a (inl (t, h, k, e)) = rw e (input_ops_number u l fd_in t h k)
input_ops_lem u l fd_in a (inr (inl (h, k, e))) = rw e (input_ops_user u l fd_in h k)
input_ops_lem u l fd_in a (inr (inr (h, k, e))) = rw e (input_ops_none u l fd_in h k)

-- A process that ends its line with `|N` or `!N`, the pipe's descriptor being none of the standard
-- ones, reads what it should, and writes to the pipe; its errors go to the pipe for `!N` alone.
pub last_child_wiring :
    (u : User) (l : Locals) (fd_in a : ℕ)
    → InputIs u l fd_in a
    → 3 ≤ l.pipe_out_num
    → (redirected inherited (number_pipe_child u l fd_in) 0 ≡ fd a)
      × (redirected inherited (number_pipe_child u l fd_in) 1 ≡ fd l.pipe_out_num)
      × (redirected inherited (number_pipe_child u l fd_in) 2
          ≡ (if l.shock_pipe_out_flag then fd l.pipe_out_num else fd 2))
last_child_wiring u l fd_in a h k = number_wiring u l fd_in a (input_ops_lem u l fd_in a h) k

-- A process that ends its line with `>N`, its message "just piped" being shorter than its array of 200
-- bytes and the write end of its pipe not 0, reads what it should, and writes to the pipe that its
-- receiver keeps for this sender.
pub user_pipe_child_wiring :
    (w : World) (ui : ℕ) (l : Locals) (fd_in a : ℕ) (command : Bytes)
    → InputIs (w.users ui) l fd_in a
    → length (piped_msg (w.users ui) (w.users (id_index l.name_pipe_out_id - 1)) command) < 200
    → ((w.users (id_index l.name_pipe_out_id - 1)).name_pipe ui).1 ≢ 0
    → (redirected inherited (user_pipe_child w ui l fd_in command) 0 ≡ fd a)
      × (redirected inherited (user_pipe_child w ui l fd_in command) 1
          ≡ fd ((w.users (id_index l.name_pipe_out_id - 1)).name_pipe ui).1)
unfolding user_pipe_child
user_pipe_child_wiring w ui l fd_in a command h short k = rw (room_lem _ short) (
    rw
      (redirected-child_broadcast qlen 0 w.users
        (piped_msg (w.users ui) (w.users (id_index l.name_pipe_out_id - 1)) command) inherited _)
      (rw (input_ops_lem (w.users ui) l fd_in a h) (unfold redirected in ground arith)))

plain_input :
    (u : User) (l : Locals) (n prc a : ℕ) (p : ℕ × ℕ)
    → InputIs u l 0 a
    → redirected inherited (plain_child u l 0 p n prc) 0 ≡ fd a
unfolding plain_child redirected
plain_input u l n prc a p (inl (t, h, k, e)) =
    rw (e, h, dup_dead_pipe_lem u.num_pipe_vec t k) (ground arith)
plain_input u l n prc a p (inr (inl (h, k, e))) = rw (e, h, k) (ground arith)
plain_input u l n prc a p (inr (inr (h, k, e))) = rw (e, h, k) (ground arith)

plain_output :
    (u : User) (l : Locals) (n prc a : ℕ) (p : ℕ × ℕ)
    → 3 ≤ p.1
    → InputIs u l 0 a
    → redirected inherited (plain_child u l 0 p n prc) 1
      ≡ (if n == 1 then fd 1 else if prc + 1 == n then fd 1 else fd p.1)
unfolding plain_child redirected
plain_output u l n prc a p b (inl (t, h, k, e)) =
    rw (h, dup_dead_pipe_lem u.num_pipe_vec t k) (ground arith)
plain_output u l n prc a p b (inr (inl (h, k, e))) = rw (h, k) (ground arith)
plain_output u l n prc a p b (inr (inr (h, k, e))) = rw (h, k) (ground arith)

-- The first process of a line, alone or before a `|`: it reads the pipe that has come to 0, else
-- the user pipe that the line names, else the user's socket; and it writes to the pipe to the next
-- process, or to the user's socket if there is none.
pub first_child_wiring :
    (u : User) (l : Locals) (n prc a : ℕ) (p : ℕ × ℕ)
    → 3 ≤ p.1
    → InputIs u l 0 a
    → (redirected inherited (plain_child u l 0 p n prc) 0 ≡ fd a)
      × (redirected inherited (plain_child u l 0 p n prc) 1
          ≡ (if n == 1 then fd 1 else if prc + 1 == n then fd 1 else fd p.1))
first_child_wiring u l n prc a p b h = (plain_input u l n prc a p h, plain_output u l n prc a p b h)

-- A process of a pipeline that reads no number pipe and no user pipe: its input is that of the
-- process before it, and its output the pipe to the next one, or the user's for the last.
pub plain_child_wiring :
    (u : User) (l : Locals) (fd_in n prc : ℕ) (p : ℕ × ℕ)
    → l.num_pipe_in_flag ≡ false
    → l.name_pipe_in_flag ≡ false
    → n ≢ 1
    → 3 ≤ p.1
    → (redirected inherited (plain_child u l fd_in p n prc) 0 ≡ fd fd_in)
      × (redirected inherited (plain_child u l fd_in p n prc) 1
          ≡ (if prc + 1 == n then fd 1 else fd p.1))
unfolding plain_child redirected
plain_child_wiring u l fd_in n prc p h k a b = ground arith
