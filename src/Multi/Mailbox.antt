-- ===== src/Multi/Mailbox.antt =====
-- The messages that wait in a row: what a sender puts in, and what the handler of SIGUSR1 prints.
pub mod Race
use network_programming_nctu.Base.{
  ℕ, suc, Bool, true, Bytes, ◌-◌, ◌==◌, if◌then◌else◌, List, [], ◌∷◌, ltb, length, ◌&&◌, Option,
  none, some, first_from, map, indices,
}
use network_programming_nctu.Strings.{format_line}
use network_programming_nctu.Statements.{
  M, Step, next, ◌>>=◌, ◌>>◌, pure, get, put, require, or_fail, overrun, bad_format,
}
use network_programming_nctu.Multi.Memory.{qlen, User, Memory}

abbrev pub slots : ℕ
slots = 10

abbrev pub slot_size : ℕ
slot_size = 1500

-- The row with one message more.
abbrev pub posted : Bytes → User → User
posted text u = record u {
  broadcast_msg = λ j. if j == u.msg_count then text else u.broadcast_msg j;
  msg_count = suc u.msg_count;
  receive = true;
}

-- `sprintf(user[i].broadcast_msg[user[i].msg_count], msg, strlen(msg)); user[i].msg_count++;
-- user[i].receive = 1;`: the message is the format.
unfoldable pub put_message : Bytes → M User (Unit {0})
put_message msg = do
  text ← or_fail (format_line msg) bad_format
  u ← get
  require (ltb u.msg_count slots) overrun
  require (ltb (length text) slot_size) overrun
  put (posted text u)

-- The messages from number `j` on.
abbrev pub pending_from : ℕ → User → List Bytes
pending_from j u = map u.broadcast_msg (indices (u.msg_count - j) j)

-- The handler's loop over the messages of a row, in one go: each is printed, and the count is 0.
unfoldable pub print_messages : User → List Bytes × User
print_messages u = (pending_from 0 u, record u { msg_count = 0 })

-- The row of the process with this number.
unfoldable pub own_row : Memory → ℕ → Option ℕ
own_row m pid = first_from qlen 0 (λ i. (m.users i).valid && ((m.users i).pid == pid))

abbrev pub put_row : Memory → ℕ → User → Memory
put_row m i u = record m { users = λ j. if j == i then u else m.users j }

-- real_broadcast_msg, the handler of SIGUSR1 in the process with this number, in one go.
unfoldable pub real_broadcast_msg : Memory → ℕ → List Bytes × Memory
real_broadcast_msg m pid = elim (own_row m pid) [
  | none ↦ ([], m)
  | some i ↦ ((print_messages (m.users i)).0, put_row m i (print_messages (m.users i)).1)
]
