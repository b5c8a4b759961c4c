-- ===== src/Socks/Request/Laws.antt =====
-- The bytes of a request: what the server reads is what the console wrote.
use network_programming_nctu.Base.{
  ℕ, ◌+◌, ◌*◌, ◌/◌, ◌%◌, ◌<◌, ◌≡◌, refl, ◌==◌, codes, arith, not, none, first_from, first_from_miss,
}
use network_programming_nctu.Strings.Decimal.{decimal}
use network_programming_nctu.Socks.Request.{
  bytetoint, byte, command_name, dotted, parse_request, bind_reply, connect_request,
}

-- A search among all bytes for one that is read as another number finds none.
no_misread_byte : first_from 256 0 (λ c. not (bytetoint c == c)) ≡ none
unfolding first_from bytetoint
no_misread_byte = refl

-- bytetoint reads a signed char as the byte that it holds: the loop shifts copies of the sign bit
-- in, and takes just the eight low bits.
pub bytetoint_lem : (c : ℕ) → c < 256 → bytetoint c ≡ c
bytetoint_lem c h =
    let read_well =
      first_from_miss 256 0 (λ b. not (bytetoint b == b)) c no_misread_byte (omega arith)
        (omega arith) in
    ground arith

-- The server's parse of the console's request gives back the port and the address.
pub parse_request-connect_request :
    (port a b c d : ℕ)
    → port < 65536
    → a < 256
    → b < 256
    → c < 256
    → d < 256
    → parse_request (connect_request port a b c d)
      ≡ record { vn = codes "4"; cd = codes "c"; dst_port = decimal port; dst_ip = dotted a b c d }
unfolding parse_request connect_request command_name
parse_request-connect_request port a b c d hp ha hb hc hd =
    rw
      (
        bytetoint_lem ((port / 256) % 256) (omega arith),
        bytetoint_lem (port % 256) (omega arith),
        bytetoint_lem a ha,
        bytetoint_lem b hb,
        bytetoint_lem c hc,
        bytetoint_lem d hd,
        bytetoint_lem 4 (omega arith),
        bytetoint_lem 1 (omega arith),
      )
      (λ i. record {
        vn = four i;
        cd = codes "c";
        dst_port = decimal (whole i);
        dst_ip = dotted a b c d;
      })
  where
    four : decimal 4 ≡ codes "4"
    four = unfold decimal in refl

    whole : (port / 256) % 256 * 256 + port % 256 ≡ port
    whole = omega arith

-- The reply to a BIND carries the port that the acceptor got: a client that reads its bytes as the
-- server reads those of a request has it back.
pub bind_reply_port :
    (port : ℕ)
    → port < 65536
    → bytetoint (byte (bind_reply port) 2) * 256 + bytetoint (byte (bind_reply port) 3) ≡ port
unfolding bind_reply
bind_reply_port port h =
    rw (bytetoint_lem (port / 256) (omega arith), bytetoint_lem (port % 256) (omega arith))
      (omega arith)
