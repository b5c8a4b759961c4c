-- ===== src/Tests/EarlierWitnesses.antt =====
-- The theorems on the messages of part 3, at concrete inputs.
use network_programming_nctu.Base.{ℕ, ◌≡◌, refl, true, false, first_from, [], ◌∷◌, codes, Bytes}
use network_programming_nctu.Strings.{format_line}
use network_programming_nctu.Multi.Earlier.{Row, store, own_row, Box, Moves, fresh}
use network_programming_nctu.Multi.Earlier
use network_programming_nctu.Multi.Earlier.Laws.{overwritten}

abbrev row : Bytes → Row
row text = record { valid = true; pid = 7; broadcast_msg = text; receive = true }

abbrev rows : ℕ → Row
rows i = row (codes "b")

abbrev one_came : Box
one_came = record (fresh 0 7 (row [])) {
  row = row (codes "b");
  sent = codes "b" ∷ [];
  printed = codes "b" ∷ [];
}

overwritten_example :
    (c : Box) × Moves 200 one_came c
    × (c.sent ≡ codes "b" ∷ codes "a" ∷ one_came.sent)
    × (c.printed ≡ codes "b" ∷ codes "b" ∷ one_came.printed)
    × (c.owed ≡ 0)
    × (c.pending ≡ false)
unfolding store format_line own_row first_from
overwritten_example =
    overwritten 200 one_came (codes "a") (codes "b") (row (codes "a")) (row (codes "b")) rows refl
      refl refl refl refl
