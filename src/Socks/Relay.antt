-- ===== src/Socks/Relay.antt =====
-- The relay between the client's socket and the other one, as HttpSession has it, and BindSession
-- in the same text: two directions, each a chain of reads and writes of one buffer.
pub mod Laws
use network_programming_nctu.Base.{
  ℕ, zero, suc, ◌-◌, Bool, true, false, ◌&&◌, not, List, [], ◌∷◌, ◌++◌, Bytes, ◌==◌, if◌then◌else◌,
  take, length,
}

-- What a direction waits for: a read, a write of the first `left` bytes of its buffer, or nothing
-- as the read has failed (`ended`) or a write has (`stuck`).
pub data Phase : Type 0 where
  reading : Phase
  writing : ℕ → Phase
  ended stuck : Phase

-- `buffer` is _write_data or _read_data; `sent` is what the other side got so far.
pub record Direction : Type 0 where
  pub phase : Phase
  pub buffer : Bytes
  pub sent : Bytes

-- `flag1` and `flag2` say that the read of a direction has failed; `open_sockets` that neither
-- socket has been closed, and the four others which halves have been shut down.
pub record Relay : Type 0 where
  pub inward : Direction
  pub outward : Direction
  pub flag1 : Bool
  pub flag2 : Bool
  pub in_receive_shut : Bool
  pub in_send_shut : Bool
  pub out_receive_shut : Bool
  pub out_send_shut : Bool
  pub open_sockets : Bool

-- How the system completes what was started: a read gives bytes or fails, a write takes a number
-- of the bytes or fails.
pub data Completion : Type 0 where
  got : Bytes → Completion
  read_failed : Completion
  took : ℕ → Completion
  write_failed : Completion

-- The handler of a read that succeeds.
unfoldable pub fill : Bytes → Direction → Direction
fill bytes d = record d { phase = writing (length bytes); buffer = bytes }

-- The handler of a write of `left` bytes that took `s`: what is left is sent from the start of the
-- buffer.
unfoldable pub drain : ℕ → ℕ → Direction → Direction
drain left s d = record d {
  phase = if left == s then reading else writing (left - s);
  sent = d.sent ++ take s d.buffer;
}

-- in_do_read and in_do_write.
unfoldable pub step_in : Phase → Completion → Relay → Relay
step_in reading (got bytes) r = record r { inward = fill bytes r.inward }
step_in reading read_failed r = record r {
  inward = record (r.inward) { phase = ended };
  flag1 = true;
  in_receive_shut = true;
  out_send_shut = true;
  open_sockets = r.open_sockets && not r.flag2;
}
step_in (writing left) (took s) r = record r { inward = drain left s r.inward }
step_in (writing left) write_failed r = record r { inward = record (r.inward) { phase = stuck } }
step_in _ _ r = r

-- out_do_read and out_do_write.
unfoldable pub step_out : Phase → Completion → Relay → Relay
step_out reading (got bytes) r = record r { outward = fill bytes r.outward }
step_out reading read_failed r = record r {
  outward = record (r.outward) { phase = ended };
  flag2 = true;
  out_receive_shut = true;
  in_send_shut = true;
  open_sockets = r.open_sockets && not r.flag1;
}
step_out (writing left) (took s) r = record r { outward = drain left s r.outward }
step_out (writing left) write_failed r = record r { outward = record (r.outward) { phase = stuck } }
step_out _ _ r = r

pub data Side : Type 0 where
  client server : Side

unfoldable pub step : Side → Completion → Relay → Relay
step client c r = step_in r.inward.phase c r
step server c r = step_out r.outward.phase c r

-- A schedule of completions.
unfoldable pub run : List (Side × Completion) → Relay → Relay
run [] r = r
run ((side, c) ∷ rest) r = run rest (step side c r)

abbrev pub idle : Direction
idle = record { phase = reading; buffer = []; sent = [] }

-- The two reads of socks_reply, and of do_accept.
abbrev pub fresh : Relay
fresh = record {
  inward = idle;
  outward = idle;
  flag1 = false;
  flag2 = false;
  in_receive_shut = false;
  in_send_shut = false;
  out_receive_shut = false;
  out_send_shut = false;
  open_sockets = true;
}
