-- ===== src/Rwg/Users.antt =====
-- The loops over user[30] in npshell.h and server.cpp, and the texts that are sent.
pub mod Laws
use network_programming_nctu.Base.{
  ℕ, zero, suc, Bool, ◌&&◌, ◌++◌, Option, Bytes, codes, same, ℤ, pos, negsuc, pred_int, ◌==ℤ◌, ◌==◌,
  if◌then◌else◌, first_from, is_some, length, ltb,
}
use network_programming_nctu.Strings.Decimal.{decimal}
use network_programming_nctu.Rwg.State.{
  User, World, Event, wrote, M, ◌>>=◌, ◌>>◌, pure, get, emit, require, overrun, qlen,
}

unfoldable pub check_id_exist : World → ℤ → Bool
check_id_exist w id =
    is_some (first_from qlen 0 (λ i. (w.users i).valid && (pos i ==ℤ pred_int id)))

unfoldable pub check_name_exist : World → Bytes → Bool
check_name_exist w name =
    is_some (first_from qlen 0 (λ i. (w.users i).valid && same (w.users i).name name))

unfoldable pub check_name_pipe_exist : World → ℕ → ℕ → Bool
check_name_pipe_exist w sender receiver = w.name_pipe_record sender receiver

unfoldable pub find_fd_user : World → ℕ → Option ℕ
find_fd_user w fd = first_from qlen 0 (λ i. (w.users i).valid && ((w.users i).sock == fd))

-- The rounds of `for (i = 0; i < QLEN; ++i)` that are left, and the index.
unfoldable pub broadcast_from : ℕ → ℕ → Bytes → M (Unit {0})
broadcast_from zero i msg = pure tt
broadcast_from (suc n) i msg = do
  w ← get
  if (w.users i).valid then emit (wrote (w.users i).sock msg) else pure tt
  broadcast_from n (suc i) msg

unfoldable pub broadcast_msg : Bytes → M (Unit {0})
broadcast_msg msg = broadcast_from qlen 0 msg

-- An id that check_id_exist has found, as an index into the arrays by id.
abbrev pub id_index : ℤ → ℕ
id_index (pos n) = n
id_index (negsuc n) = 0

-- `%d`
unfoldable pub show_int : ℤ → Bytes
show_int (pos n) = decimal n
show_int (negsuc n) = codes "-" ++ decimal (suc n)

-- `sprintf` into an array of `size` bytes, its NUL included.
abbrev pub fits : ℕ → Bytes → M (Unit {0})
fits size text = require (ltb (length text) size) overrun

abbrev pub no_name : Bytes
no_name = codes "(no name)"

unfoldable pub no_user_msg : ℤ → Bytes
no_user_msg id = codes "*** Error: user #" ++ (show_int id ++ codes " does not exist yet. ***\n")

unfoldable pub no_pipe_msg : ℕ → ℕ → Bytes
no_pipe_msg from to =
    codes "*** Error: the pipe #"
    ++ (decimal from ++ (codes "->#" ++ (decimal to ++ codes " does not exist yet. ***\n")))

unfoldable pub pipe_exists_msg : ℕ → ℕ → Bytes
pipe_exists_msg from to =
    codes "*** Error: the pipe #"
    ++ (decimal from ++ (codes "->#" ++ (decimal to ++ codes " already exists. ***\n")))

-- "name (#id)"
unfoldable pub person : Bytes → ℕ → Bytes
person name id = name ++ (codes " (#" ++ (decimal id ++ codes ")"))

unfoldable pub received_msg : User → User → ℕ → Bytes → Bytes
received_msg me sender id command =
    codes "*** "
    ++ (person me.name me.id
        ++ (codes " just received from "
            ++ (person sender.name id ++ (codes " by '" ++ (command ++ codes "' ***\n")))))

unfoldable pub piped_msg : User → User → Bytes → Bytes
piped_msg me receiver command =
    codes "*** "
    ++ (person me.name me.id
        ++ (codes " just piped '"
            ++ (command
                ++ (codes "' to " ++ (person receiver.name receiver.id ++ codes " ***\n")))))
