-- ===== src/Socks/Request.antt =====
-- SockSession: the request that is read, its fields, and the replies; and the request that
-- console.cpp sends. A `char` is signed: a byte from 128 on stands for a negative number.
pub mod Laws
use network_programming_nctu.Base.{
  ℕ, zero, suc, ◌+◌, ◌*◌, ◌/◌, ◌%◌, Bool, true, false, List, [], ◌∷◌, ◌++◌, Option, none, some,
  Bytes, codes, leb, ◌==◌, if◌then◌else◌, get_or, take, drop,
}
use network_programming_nctu.Strings.Decimal.{decimal}

-- `c >> 1` of a `char`: the sign bit stays.
abbrev pub shift_right : ℕ → ℕ
shift_right c = if leb 128 c then 128 + c / 2 else c / 2

-- The loop of bytetoint: the rounds left, `a`, `r` and `c`.
unfoldable pub bits_from : ℕ → ℕ → ℕ → ℕ → ℕ
bits_from zero a r c = a
bits_from (suc n) a r c = bits_from n (a + (c % 2) * r) (r * 2) (shift_right c)

unfoldable pub bytetoint : ℕ → ℕ
unfolding bits_from
bytetoint c = bits_from 8 0 1 c

-- The map _sock_request: a key that was not set reads as "".
pub record SockRequest : Type 0 where
  pub vn : Bytes
  pub cd : Bytes
  pub dst_port : Bytes
  pub dst_ip : Bytes

abbrev pub byte : Bytes → ℕ → ℕ
byte request i = get_or request i 0

unfoldable pub command_name : ℕ → Bytes
command_name c = if c == 1 then codes "c" else if c == 2 then codes "b" else []

unfoldable pub dotted : ℕ → ℕ → ℕ → ℕ → Bytes
dotted a b c d =
    decimal a
    ++ (codes "." ++ (decimal b ++ (codes "." ++ (decimal c ++ (codes "." ++ decimal d)))))

-- The array `_request` after the read.
unfoldable pub parse_request : Bytes → SockRequest
parse_request request = record {
  vn = decimal (bytetoint (byte request 0));
  cd = command_name (bytetoint (byte request 1));
  dst_port = decimal (bytetoint (byte request 2) * 256 + bytetoint (byte request 3));
  dst_ip =
      dotted (bytetoint (byte request 4)) (bytetoint (byte request 5)) (bytetoint (byte request 6))
        (bytetoint (byte request 7));
}

-- The reply to a CONNECT, and to a refused request: the port and address of the request again.
unfoldable pub echo_reply : ℕ → Bytes → Bytes
echo_reply code request = 0 ∷ code ∷ take 6 (drop 2 request)

unfoldable pub reject_reply : Bytes → Bytes
reject_reply request = echo_reply 91 request

-- The reply to a BIND: the port that the acceptor got, and the address 0.0.0.0.
unfoldable pub bind_reply : ℕ → Bytes
bind_reply port = 0 ∷ 90 ∷ (port / 256) ∷ (port % 256) ∷ 0 ∷ 0 ∷ 0 ∷ 0 ∷ []

-- console.cpp, send_sock_request: the nine bytes that ask for a CONNECT; `port` is the number that
-- atoi reads, and `a`, `b`, `c`, `d` the address that the resolver found.
unfoldable pub connect_request : ℕ → ℕ → ℕ → ℕ → ℕ → Bytes
connect_request port a b c d = 4 ∷ 1 ∷ ((port / 256) % 256) ∷ (port % 256) ∷ a ∷ b ∷ c ∷ d ∷ 0 ∷ []
