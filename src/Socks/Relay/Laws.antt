-- ===== src/Socks/Relay/Laws.antt =====
-- What the relay closes, and what it delivers.
use network_programming_nctu.Base.{
  ℕ, ◌-◌, ◌<◌, ◌≡◌, refl, sym, ◌∙◌, Bool, true, false, not, ◌&&◌, List, [], ◌∷◌, ◌++◌, append_assoc,
  append-nil, Bytes, length, take, take_all, arith,
}
use network_programming_nctu.Socks.Relay.{
  Phase, reading, ended, Relay, Completion, got, took, fill, drain, step_in, Side, client, step,
  run,
}

abbrev pub is_ended : Phase → Bool
is_ended ended = true
is_ended _ = false

-- A flag is set exactly if its direction's read has failed; the shut halves follow the flags; and
-- the sockets are closed exactly if both flags are set.
pub record IsCoherent (r : Relay) : Type 0 where
  pub in_ended : r.flag1 ≡ is_ended r.inward.phase
  pub out_ended : r.flag2 ≡ is_ended r.outward.phase
  pub closing : r.open_sockets ≡ not (r.flag1 && r.flag2)
  pub in_receive : r.in_receive_shut ≡ r.flag1
  pub out_send : r.out_send_shut ≡ r.flag1
  pub out_receive : r.out_receive_shut ≡ r.flag2
  pub in_send : r.in_send_shut ≡ r.flag2

-- Reads of the client, each followed by a write that takes all of it.
abbrev pub whole_writes : List Bytes → List (Side × Completion)
whole_writes [] = []
whole_writes (b ∷ bs) = (client, got b) ∷ (client, took (length b)) ∷ whole_writes bs

abbrev pub joined : List Bytes → Bytes
joined [] = []
joined (b ∷ bs) = b ++ joined bs

step_whole :
    (b : Bytes) (r : Relay)
    → r.inward.phase ≡ reading
    → step client (took (length b)) (step client (got b) r)
      ≡ record r { inward = record { phase = reading; buffer = b; sent = r.inward.sent ++ b } }
unfolding step step_in fill drain
step_whole b r e = ground (arith, take_all b)

-- Where each read of the client is followed by a write that takes all of it, the other side gets
-- what the client sent, in order, and the next read has been started.
pub run-whole_writes :
    (bs : List Bytes) (r : Relay)
    → r.inward.phase ≡ reading
    → ((run (whole_writes bs) r).inward.sent ≡ r.inward.sent ++ joined bs)
      × ((run (whole_writes bs) r).inward.phase ≡ reading)
unfolding run
run-whole_writes [] r e = (sym (append-nil r.inward.sent), e)
run-whole_writes (b ∷ bs) r e =
    rw (step_whole b r e, run)
      (let (x, y) =
          run-whole_writes bs
            (record r {
              inward = record { phase = reading; buffer = b; sent = r.inward.sent ++ b };
            })
            refl in
        (x ∙ append_assoc r.inward.sent b (joined bs), y))

-- Where a read of the client is followed by a write that takes only its first `s` bytes, the next
-- write sends as many bytes as are left, but from the buffer's start: the other side gets the first
-- bytes again, in place of the rest.
pub partial_write_repeats :
    (b : Bytes) (s : ℕ) (r : Relay)
    → r.inward.phase ≡ reading
    → s < length b
    → (run ((client, got b) ∷ (client, took s) ∷ (client, took (length b - s)) ∷ []) r).inward.sent
      ≡ r.inward.sent ++ (take s b ++ take (length b - s) b)
unfolding run step step_in fill drain
partial_write_repeats b s r e h =
    ground (arith, append_assoc r.inward.sent (take s b) (take (length b - s) b))
