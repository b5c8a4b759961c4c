-- ===== src/Console/Query.antt =====
-- The query of a console: `regex_search` with the patterns of the consoles, and the loop that fills
-- the map from keys such as "h0" to values.
pub mod Laws
pub mod Form
use network_programming_nctu.Base.{
  ℕ, zero, suc, Bool, true, false, ◌&&◌, ◌||◌, List, [], ◌∷◌, ◌++◌, Option, none, some, Bytes, leb,
  ◌==◌, same, if◌then◌else◌, length, take, drop,
}

abbrev pub is_digit : ℕ → Bool
is_digit c = leb b'0' c && leb c b'9'

-- `[0-9.a-z]`
abbrev pub is_value : ℕ → Bool
is_value c = is_digit c || (c == b'.' || (leb b'a' c && leb c b'z'))

-- `[…][…]=[0-9.a-z]*`, by its first two classes.
pub record Pattern : Type 0 where
  pub first : ℕ → Bool
  pub second : ℕ → Bool

-- "[fhp][0-9]{1}=[0-9.a-z]*"
abbrev pub pattern_3 : Pattern
pattern_3 = record { first = λ c. c == b'f' || (c == b'h' || c == b'p'); second = is_digit }

-- "[sfhp][0-9ph]{1}=[0-9.a-z]*"
abbrev pub pattern_4 : Pattern
pattern_4 = record {
  first = λ c. c == b's' || (c == b'f' || (c == b'h' || c == b'p'));
  second = λ c. is_digit c || (c == b'p' || c == b'h');
}

-- A match, and `queryToken.suffix()`.
pub record Found : Type 0 where
  pub text : Bytes
  pub suffix : Bytes

-- The longest run of `[0-9.a-z]`, and what follows it.
unfoldable pub value_run : Bytes → Bytes × Bytes
value_run [] = ([], [])
value_run (c ∷ s) =
    let rest = value_run s in if is_value c then (c ∷ rest.0, rest.1) else ([], c ∷ s)

unfoldable pub match_equals : ℕ → ℕ → Bytes → Option Found
match_equals a b [] = none
match_equals a b (c ∷ s) =
    if c == b'='
    then some (record { text = a ∷ b ∷ c ∷ (value_run s).0; suffix = (value_run s).1 })
    else none

unfoldable pub match_second : Pattern → ℕ → Bytes → Option Found
match_second pat a [] = none
match_second pat a (b ∷ s) = if pat.second b then match_equals a b s else none

-- A match that begins here.
unfoldable pub match_here : Pattern → Bytes → Option Found
match_here pat [] = none
match_here pat (a ∷ s) = if pat.first a then match_second pat a s else none

-- The leftmost match.
unfoldable pub regex_search : Pattern → Bytes → Option Found
regex_search pat [] = none
regex_search pat (c ∷ s) = elim (match_here pat (c ∷ s)) [
  | none ↦ regex_search pat s
  | some m ↦ some m
]

-- A map in which a key that was not set reads as "".
abbrev pub Query : Type 0
Query = Bytes → Bytes

abbrev pub assign : Bytes → Bytes → Query → Query
assign k v query j = if same k j then v else query j

-- The loop, on fuel: the map, and what is left of queryString.
unfoldable pub search_loop : Pattern → ℕ → Query → Bytes → Query × Bytes
search_loop pat zero query s = (query, s)
search_loop pat (suc n) query s = elim (regex_search pat s) [
  | none ↦ (query, s)
  | some m ↦ search_loop pat n (assign (take 2 m.text) (drop 3 m.text) query) m.suffix
]

unfoldable pub parse_query_string : Pattern → Bytes → Query
parse_query_string pat s = (search_loop pat (suc (length s)) (λ k. []) s).0
