-- ===== src/Strings.antt =====
-- The C string functions that the programs call: strtok, atoi, strncpy into a zeroed buffer,
-- sprintf of a line used as its own format, and decimal printing.
pub mod Laws
pub mod Decimal
use network_programming_nctu.Base.{
  ℕ, zero, suc, ◌+◌, ◌-◌, ◌*◌, Bool, ◌||◌, ◌&&◌, List, [], ◌∷◌, ◌++◌, Option, none, some, Bytes,
  ltb, leb, ◌==◌, if◌then◌else◌, length, drop, ℤ, pos, negsuc,
}

-- `cur` is the token that is being read; an empty one is no token.
abbrev pub push_token : Bytes → List Bytes → List Bytes
push_token [] ts = ts
push_token (c ∷ cur) ts = (c ∷ cur) ∷ ts

unfoldable pub scan_tokens : ℕ → Bytes → Bytes → List Bytes
scan_tokens sep cur [] = push_token cur []
scan_tokens sep cur (c ∷ s) =
    let closed = push_token cur (scan_tokens sep [] s) in
    let longer = scan_tokens sep (cur ++ c ∷ []) s in if c == sep then closed else longer

-- The values of `strtok(s, sep)`, `strtok(NULL, sep)`, … up to the first NULL.
unfoldable pub tokens : ℕ → Bytes → List Bytes
unfolding scan_tokens
tokens sep s = scan_tokens sep [] s

-- The first `strtok(s, sep)`; `none` is NULL.
unfoldable pub first_token : ℕ → Bytes → Option Bytes
unfolding tokens
first_token sep s = elim (tokens sep s) [ [] ↦ none | t ∷ ts ↦ some t ]

abbrev is_space : ℕ → Bool
is_space c = c == 32 || (leb 9 c && leb c 13)

abbrev is_digit : ℕ → Bool
is_digit c = leb b'0' c && leb c b'9'

unfoldable pub skip_spaces : Bytes → Bytes
skip_spaces [] = []
skip_spaces (c ∷ s) = if is_space c then skip_spaces s else c ∷ s

unfoldable pub digits_value : ℕ → Bytes → ℕ
digits_value n [] = n
digits_value n (c ∷ s) = if is_digit c then digits_value (n * 10 + (c - b'0')) s else n

abbrev negate : ℕ → ℤ
negate n = elim n [ zero ↦ pos 0 | suc m ↦ negsuc m ]

abbrev signed_value : Bytes → ℤ
signed_value [] = pos 0
signed_value (c ∷ s) =
    if c == b'-'
    then negate (digits_value 0 s)
    else if c == b'+'
    then pos (digits_value 0 s)
    else pos (digits_value 0 (c ∷ s))

-- `atoi`: spaces, a sign, digits, and whatever follows is ignored.
unfoldable pub atoi : Bytes → ℤ
unfolding skip_spaces digits_value
atoi s = signed_value (skip_spaces s)

-- `strncpy(buf, s, strlen(s))`: no NUL is copied, so what stood behind stays.
unfoldable pub overlay : Bytes → Bytes → Bytes
overlay s buf = s ++ drop (length s) buf

abbrev prepend : ℕ → Option Bytes → Option Bytes
prepend b none = none
prepend b (some t) = some (b ∷ t)

-- `sprintf(out, line, …)`: the line is the format. `%%` prints one `%`; any other directive reads
-- an argument that is not there or not of its type, which C leaves undefined: `none`.
unfoldable pub format_line : Bytes → Option Bytes
format_line [] = some []
format_line (c ∷ []) = if c == b'%' then none else some (c ∷ [])
format_line (c ∷ d ∷ s) =
    let escaped = prepend b'%' (format_line s) in
    let plain = prepend c (format_line (d ∷ s)) in
    if c == b'%' then (if d == b'%' then escaped else none) else plain
