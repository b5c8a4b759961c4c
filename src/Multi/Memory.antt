-- ===== src/Multi/Memory.antt =====
-- The rows of the shared memory, and the loops of npshell_3.h that read them.
use network_programming_nctu.Base.{
  ℕ, Bool, ◌&&◌, Bytes, same, ℤ, pos, pred_int, ◌==ℤ◌, ◌==◌, if◌then◌else◌, first_from, is_some,
  List, ◌∷◌,
}
use network_programming_nctu.Statements.{M, next}

abbrev pub qlen : ℕ
qlen = 30

-- `User` of user_3.h. The record of a row says which ids have sent it a user pipe; broadcast_msg
-- has ten slots of 1,500 bytes.
pub record User : Type 0 where
  pub valid : Bool
  pub id : ℕ
  pub pid : ℕ
  pub sock : ℕ
  pub addr : Bytes
  pub name : Bytes
  pub port : ℕ
  pub batch_flag : Bool
  pub ignore : Bool
  pub name_pipe_record : ℕ → Bool
  pub broadcast_msg : ℕ → Bytes
  pub msg_count : ℕ
  pub receive : Bool

-- The rows, and the processes that were sent SIGUSR1, the newest first.
pub record Memory : Type 0 where
  pub users : ℕ → User
  pub signalled : List ℕ

-- One access, or a few, of one process.
abbrev pub Access : Type 0
Access = M Memory (Unit {0})

abbrev pub set_row : ℕ → User → Access
set_row i u m = next tt (record m { users = λ j. if j == i then u else m.users j })

-- `kill(pid, SIGUSR1)`
abbrev pub kill : ℕ → Access
kill pid m = next tt (record m { signalled = pid ∷ m.signalled })

unfoldable pub check_id_exist : Memory → ℤ → Bool
check_id_exist m id =
    is_some (first_from qlen 0 (λ i. (m.users i).valid && (pos i ==ℤ pred_int id)))

unfoldable pub check_name_exist : Memory → Bytes → Bool
check_name_exist m name =
    is_some (first_from qlen 0 (λ i. (m.users i).valid && same (m.users i).name name))

unfoldable pub check_name_pipe_exist : Memory → ℕ → ℕ → Bool
check_name_pipe_exist m sender receiver = (m.users receiver).name_pipe_record sender
