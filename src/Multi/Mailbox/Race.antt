-- ===== src/Multi/Mailbox/Race.antt =====
-- The handler against the senders: it takes no lock, so they run between its accesses.
use network_programming_nctu.Base.{
  ℕ, suc, true, ◌<◌, ◌≤◌, ◌≡◌, refl, ap, Bytes, List, [], ◌∷◌, ◌++◌, arith, ◌==◌, if◌then◌else◌,
}
use network_programming_nctu.Statements.{next}
use network_programming_nctu.Multi.Memory.{User}
use network_programming_nctu.Multi.Mailbox.{posted, put_message, pending_from}

-- Where the handler stands: not running, before the test `j < msg_count`, or behind the loop.
pub data Reader : Type 0 where
  idle : Reader
  looping : ℕ → Reader
  resetting : Reader

-- Where the sender stands that holds the lock, if any: the text is in the slot, or is counted too.
pub data Sender : Type 0 where
  resting : Sender
  stored : Sender
  counted : Sender

-- `sent` is what the senders put in, and `printed` what the handler wrote, both in order.
pub record Box : Type 0 where
  pub row : User
  pub reader : Reader
  pub sender : Sender
  pub sent : List Bytes
  pub printed : List Bytes

-- `sprintf` into the slot number msg_count, `msg_count++` and `receive = 1`
abbrev pub put_text : Bytes → User → User
put_text text u = record u {
  broadcast_msg = λ j. if j == u.msg_count then text else u.broadcast_msg j;
}

abbrev pub count_text : User → User
count_text u = record u { msg_count = suc u.msg_count }

abbrev pub raise : User → User
raise u = record u { receive = true }

-- `Open` says where the handler may stand when a sender begins.
pub data Move (Open : Reader → Type 0) (b : Box) : Box → Type 0 where
  stores :
      (msg text : Bytes)
      → Open b.reader
      → b.sender ≡ resting
      → put_message msg b.row ≡ next tt (posted text b.row)
      → Move Open b
          (record b { row = put_text text b.row; sender = stored; sent = b.sent ++ text ∷ [] })
  counts : b.sender ≡ stored → Move Open b (record b { row = count_text b.row; sender = counted })
  raises : b.sender ≡ counted → Move Open b (record b { row = raise b.row; sender = resting })
  signal : b.reader ≡ idle → Move Open b (record b { reader = looping 0 })
  print :
      (j : ℕ)
      → b.reader ≡ looping j
      → j < b.row.msg_count
      → Move Open b
          (record b { reader = looping (suc j); printed = b.printed ++ b.row.broadcast_msg j ∷ [] })
  leave :
      (j : ℕ)
      → b.reader ≡ looping j
      → b.row.msg_count ≤ j
      → Move Open b (record b { reader = resetting })
  reset :
      b.reader ≡ resetting
      → Move Open b (record b { row = record (b.row) { msg_count = 0 }; reader = idle })

pub data Moves (Open : Reader → Type 0) (b : Box) : Box → Type 0 where
  here : Moves Open b b
  later : {c d : Box} → Moves Open b c → Move Open c d → Moves Open b d

-- The messages that the handler has still to print, from where it stands.
abbrev pub waiting : Reader → User → List Bytes
waiting idle u = pending_from 0 u
waiting (looping j) u = pending_from j u
waiting resetting u = []

abbrev pub AnyTime : Reader → Type 0
AnyTime r = Unit

-- Senders may run between the handler's last test and its reset of the count: whatever happened before,
-- a message that comes in before the reset is lost; the handler is through, nothing waits, and it was
-- not printed.
pub message_lost :
    (b : Box) (msg text : Bytes)
    → b.reader ≡ resetting
    → b.sender ≡ resting
    → put_message msg b.row ≡ next tt (posted text b.row)
    → (c : Box) × Moves AnyTime b c
      × (c.sent ≡ b.sent ++ text ∷ [])
      × (c.printed ≡ b.printed)
      × (c.reader ≡ idle)
      × (c.sender ≡ resting)
      × (waiting c.reader c.row ≡ [])
message_lost b msg text e f p = (
  _,
  later (later (later (later here (stores msg text tt f p)) (counts refl)) (raises refl)) (reset e),
  refl,
  refl,
  refl,
  refl,
  refl,
)

-- The handler may run between the statements of a sender: of a row with one message that was not
-- printed, a handler that comes behind the store of the next message prints the first, and the count
-- that is raised then stands for the first again: it is printed twice, and the next message never.
pub message_repeated :
    (b : Box) (msg text : Bytes)
    → b.reader ≡ idle
    → b.sender ≡ resting
    → b.row.msg_count ≡ 1
    → put_message msg b.row ≡ next tt (posted text b.row)
    → (c : Box) × Moves AnyTime b c
      × (c.sent ≡ b.sent ++ text ∷ [])
      × (c.printed ≡ (b.printed ++ b.row.broadcast_msg 0 ∷ []) ++ b.row.broadcast_msg 0 ∷ [])
      × (c.reader ≡ idle)
      × (c.sender ≡ resting)
      × (waiting c.reader c.row ≡ [])
message_repeated b msg text e f one p = (
  _,
  later
      (later
        (later (later (later (later first_round (counts refl)) (raises refl)) (signal refl))
          (print 0 refl (omega arith)))
        (leave 1 refl (omega arith)))
      (reset refl),
  refl,
  ap (λ t. (b.printed ++ t ∷ []) ++ t ∷ []) slot,
  refl,
  refl,
  refl,
)
  where
    printed_first : Bytes
    printed_first = if 0 == b.row.msg_count then text else b.row.broadcast_msg 0

    slot : printed_first ≡ b.row.broadcast_msg 0
    slot = rw one refl

    first_round : Moves AnyTime b (record b {
      row = record (put_text text b.row) { msg_count = 0 };
      reader = idle;
      sender = stored;
      sent = b.sent ++ text ∷ [];
      printed = b.printed ++ printed_first ∷ [];
    })
    first_round =
        later
          (later
            (later (later (later here (stores msg text tt f p)) (signal e))
              (print 0 refl (omega (arith, one))))
            (leave 1 refl (omega (arith, one))))
          (reset refl)
