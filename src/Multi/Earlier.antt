-- ===== src/Multi/Earlier.antt =====
-- The messages between users in nctu_np_project2/part3, the earlier version of the server in final: one
-- buffer for each row, and a SIGUSR1 for each message. The size of the buffer is in a file user.h that
-- is not beside the code.
pub mod Laws
use network_programming_nctu.Base.{
  ℕ, suc, Bool, true, false, ◌&&◌, ◌==◌, ◌≡◌, ◌≢◌, Bytes, Option, none, some, List, [], ◌∷◌, ◌++◌,
  ltb, length, first_from,
}
use network_programming_nctu.Strings.{format_line}
use network_programming_nctu.Statements.{
  M, next, ◌>>=◌, ◌>>◌, get, put, require, or_fail, overrun, bad_format,
}
use network_programming_nctu.Multi.Memory.{qlen}

-- What a message touches of a row.
pub record Row : Type 0 where
  pub valid : Bool
  pub pid : ℕ
  pub broadcast_msg : Bytes
  pub receive : Bool

-- `sprintf(user[i].broadcast_msg, msg, strlen(msg)); user[i].receive = 1;`: the message is the
-- format. broadcast_msg does it under the lock, `tell` without.
unfoldable pub store : ℕ → Bytes → M Row (Unit {0})
store size msg = do
  text ← or_fail (format_line msg) bad_format
  u ← get
  require (ltb (length text) size) overrun
  put (record u { broadcast_msg = text; receive = true })

-- The row of the process.
unfoldable pub own_row : (ℕ → Row) → ℕ → Option ℕ
own_row rows pid = first_from qlen 0 (λ i. (rows i).valid && ((rows i).pid == pid))

-- The handler of SIGUSR1: what it prints.
unfoldable pub real_broadcast_msg : (ℕ → Row) → ℕ → List Bytes
real_broadcast_msg rows pid = elim (own_row rows pid) [
  | none ↦ []
  | some i ↦ (rows i).broadcast_msg ∷ []
]

-- The buffer of row `index`, whose process is `pid`: the senders that have stored and not yet called
-- `kill`, whether SIGUSR1 waits for its handler, and what was stored and printed, the newest first.
pub record Box : Type 0 where
  pub index : ℕ
  pub pid : ℕ
  pub row : Row
  pub owed : ℕ
  pub pending : Bool
  pub sent : List Bytes
  pub printed : List Bytes

-- `kill` signals the process whose number is in the row, and `notes` is the process that puts in its
-- own. A text that is stored counts as sent. The handler sees the other rows as they may be.
pub data Move (size : ℕ) (b : Box) : Box → Type 0 where
  stores :
      (msg : Bytes) (row : Row)
      → store size msg b.row ≡ next tt row
      → Move size b (record b { row = row; owed = suc b.owed; sent = row.broadcast_msg ∷ b.sent })
  kills :
      (n : ℕ)
      → b.owed ≡ suc n
      → b.row.pid ≡ b.pid
      → Move size b (record b { owed = n; pending = true })
  -- the number in the row is that of the client before, as the process has not noted its own yet
  misses : (n : ℕ) → b.owed ≡ suc n → b.row.pid ≢ b.pid → Move size b (record b { owed = n })
  notes : Move size b (record b { row = record (b.row) { pid = b.pid } })
  handles :
      (rows : ℕ → Row)
      → b.pending ≡ true
      → rows b.index ≡ b.row
      → own_row rows b.pid ≡ some b.index
      → Move size b
          (record b { pending = false; printed = real_broadcast_msg rows b.pid ++ b.printed })

pub data Moves (size : ℕ) (b : Box) : Box → Type 0 where
  here : Moves size b b
  later : {c d : Box} → Moves size b c → Move size c d → Moves size b d

-- No message has come yet.
abbrev pub fresh : ℕ → ℕ → Row → Box
fresh index pid row = record {
  index = index;
  pid = pid;
  row = row;
  owed = 0;
  pending = false;
  sent = [];
  printed = [];
}
