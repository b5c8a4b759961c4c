-- ===== src/Multi/Earlier/Laws.antt =====
-- The last message arrives; one before it may not.
use network_programming_nctu.Base.{
  ℕ, zero, suc, ◌≡◌, refl, sym, ap, first_from_hit, ==_iff, ◌==◌, ◌&&◌, arith, ◌∙◌, Bool, true,
  false, Bytes, Option, none, some, List, [], ◌∷◌, ◌++◌,
}
use network_programming_nctu.Statements.{next}
use network_programming_nctu.Statements.Ends.{Ends}
use network_programming_nctu.Multi.Memory.{qlen}
use network_programming_nctu.Multi.Earlier.{
  Row, store, own_row, real_broadcast_msg, Box, stores, kills, handles, Moves, here, later,
}

abbrev pub newest : List Bytes → Option Bytes
newest [] = none
newest (x ∷ xs) = some x

-- What is still to be handled is in the buffer.
abbrev IsNews : Box → ℕ → Bool → Type 0
IsNews b zero false = newest b.printed ≡ newest b.sent
IsNews b zero true = some b.row.broadcast_msg ≡ newest b.sent
IsNews b (suc n) p = some b.row.broadcast_msg ≡ newest b.sent

real_broadcast_msg-own :
    (rows : ℕ → Row) (pid i : ℕ) (row : Row)
    → rows i ≡ row
    → own_row rows pid ≡ some i
    → real_broadcast_msg rows pid ≡ row.broadcast_msg ∷ []
unfolding real_broadcast_msg
real_broadcast_msg-own rows pid i row e f =
    rw (real_broadcast_msg, f) (ap (λ r. r.broadcast_msg ∷ []) e)

own_row-pid : (rows : ℕ → Row) (pid i : ℕ) → own_row rows pid ≡ some i → (rows i).pid ≡ pid
unfolding own_row
own_row-pid rows pid i h =
    let (hit, _, _) = first_from_hit qlen 0 (λ k. (rows k).valid && ((rows k).pid == pid)) i h in
    ground (arith, hit, ==_iff (rows i).pid pid)

-- But a sender may store before the one in front of it has called `kill`: from where no sender has
-- still to call it, of two messages that can be stored, the first may never be printed and the second
-- be printed twice, and then no sender has to call `kill` and no SIGUSR1 waits.
pub overwritten :
    (size : ℕ) (b : Box) (first second : Bytes) (after_first after_second : Row) (rows : ℕ → Row)
    → b.owed ≡ 0
    → store size first b.row ≡ next tt after_first
    → store size second after_first ≡ next tt after_second
    → rows b.index ≡ after_second
    → own_row rows b.pid ≡ some b.index
    → (c : Box) × Moves size b c
      × (c.sent ≡ after_second.broadcast_msg ∷ after_first.broadcast_msg ∷ b.sent)
      × (c.printed ≡ after_second.broadcast_msg ∷ after_second.broadcast_msg ∷ b.printed)
      × (c.owed ≡ 0)
      × (c.pending ≡ false)
overwritten size b first second after_first after_second rows o e f g h =
    (_, moves, refl, ap (λ ts. ts ++ (ts ++ b.printed)) once, refl, refl)
  where
    own : after_second.pid ≡ b.pid
    own = sym (ap (λ r. r.pid) g) ∙ own_row-pid rows b.pid b.index h

    once : real_broadcast_msg rows b.pid ≡ after_second.broadcast_msg ∷ []
    once = real_broadcast_msg-own rows b.pid b.index after_second g h

    moves : Moves size b (record b {
      row = after_second;
      owed = 0;
      pending = false;
      sent = after_second.broadcast_msg ∷ after_first.broadcast_msg ∷ b.sent;
      printed = real_broadcast_msg rows b.pid ++ (real_broadcast_msg rows b.pid ++ b.printed);
    })
    moves =
        later
          (later
            (later
              (later
                (later (later here (stores first after_first e)) (stores second after_second f))
                (kills 1 (ap (λ n. suc (suc n)) o) own))
              (handles rows refl g h))
            (kills 0 refl own))
          (handles rows refl g h)
