-- ===== src/Console/Query/Laws.antt =====
-- The loop over a query ends, and what it leaves in the map.
use network_programming_nctu.Base.{
  ℕ, zero, suc, ◌<◌, ◌≤◌, ◌≡◌, refl, true, [], ◌∷◌, Option, none, some, Bytes, same, if_both,
  if_cases, length, take, drop, All, arith, ◌==◌, Option-cases, inl, inr, subst,
}
use network_programming_nctu.Console.Query.{
  is_value, Pattern, Found, value_run, match_equals, match_second, match_here, regex_search, Query,
  assign, search_loop, parse_query_string,
}

-- A character of a value.
abbrev pub IsValue : ℕ → Type 0
IsValue c = is_value c ≡ true

-- What a match leaves is shorter than the text, by three characters at least, and its value is one.
abbrev IsShort : ℕ → Option Found → Type 0
IsShort n none = Unit {0}
IsShort n (some m) = (length m.suffix < n) × All IsValue (drop 3 m.text)

value_run_lem : (s : Bytes) → (length (value_run s).1 ≤ length s) × All IsValue (value_run s).0
unfolding value_run
value_run_lem [] = (omega arith, tt)
value_run_lem (c ∷ s) =
    let (shorter, plain) = value_run_lem s in
    if_cases (λ (r : Bytes × Bytes). (length r.1 ≤ suc (length s)) × All IsValue r.0) (is_value c)
      (λ h. (omega arith, (h, plain))) (λ h. (omega arith, tt))

match_equals-IsShort : (a b : ℕ) (s : Bytes) → IsShort (suc (suc (length s))) (match_equals a b s)
unfolding match_equals
match_equals-IsShort a b [] = tt
match_equals-IsShort a b (c ∷ s) =
    let (shorter, plain) = value_run_lem s in
    if_both (IsShort (suc (suc (suc (length s))))) (c == b'=') (omega arith, plain) tt

match_second-IsShort :
    (pat : Pattern) (a : ℕ) (s : Bytes) → IsShort (suc (length s)) (match_second pat a s)
unfolding match_second
match_second-IsShort pat a [] = tt
match_second-IsShort pat a (b ∷ s) =
    if_both (IsShort (suc (suc (length s)))) (pat.second b) (match_equals-IsShort a b s) tt

match_here-IsShort : (pat : Pattern) (s : Bytes) → IsShort (length s) (match_here pat s)
unfolding match_here
match_here-IsShort pat [] = tt
match_here-IsShort pat (a ∷ s) =
    if_both (IsShort (suc (length s))) (pat.first a) (match_second-IsShort pat a s) tt

regex_search-IsShort : (pat : Pattern) (s : Bytes) → IsShort (length s) (regex_search pat s)
unfolding regex_search
regex_search-IsShort pat [] = tt
regex_search-IsShort pat (c ∷ s) =
    later (match_here pat (c ∷ s)) (match_here-IsShort pat (c ∷ s))
      (longer (regex_search pat s) (regex_search-IsShort pat s))
  where
    longer : (o : Option Found) → IsShort (length s) o → IsShort (suc (length s)) o
    longer none h = tt
    longer (some m) (h, plain) = (omega arith, plain)

    later :
        (o : Option Found)
        → IsShort (suc (length s)) o
        → IsShort (suc (length s)) (regex_search pat s)
        → IsShort (suc (length s)) (elim o [ none ↦ regex_search pat s | some m ↦ some m ])
    later none h k = k
    later (some m) h k = h

-- A round of the loop.
module _ (pat : Pattern) (n : ℕ) (query : Query) (s : Bytes) where
  pub search_loop-none : regex_search pat s ≡ none → search_loop pat (suc n) query s ≡ (query, s)
  unfolding search_loop
  search_loop-none e = rw (e, search_loop) refl

  pub search_loop-some :
      (m : Found)
      → regex_search pat s ≡ some m
      → search_loop pat (suc n) query s
        ≡ search_loop pat n (assign (take 2 m.text) (drop 3 m.text) query) m.suffix
  unfolding search_loop
  search_loop-some m e = rw (e, search_loop) refl

-- Whatever the query holds, the loop over it ends: with as much fuel as the query has characters
-- and one more, it comes to a text in which the pattern has no match.
pub search_loop_ends :
    (pat : Pattern) (n : ℕ) (query : Query) (s : Bytes)
    → length s < n
    → regex_search pat (search_loop pat n query s).1 ≡ none
search_loop_ends pat zero query s h = absurd (omega arith)
search_loop_ends pat (suc n) query s h = elim (Option-cases (regex_search pat s)) [
  | inl e ↦ rw (search_loop-none pat n query s e) e
  | inr (m, e) ↦
      let (shorter, _) = subst (IsShort (length s)) e (regex_search-IsShort pat s) in
      rw (search_loop-some pat n query s m e) (
        search_loop_ends pat n (assign (take 2 m.text) (drop 3 m.text) query) m.suffix
          (omega arith))
]

abbrev Plain : Query → Type 0
Plain query = (k : Bytes) → All IsValue (query k)

search_loop-Plain :
    (pat : Pattern) (n : ℕ) (query : Query) (s : Bytes)
    → Plain query
    → Plain (search_loop pat n query s).0
search_loop-Plain pat zero query s h = unfold search_loop in h
search_loop-Plain pat (suc n) query s h = elim (Option-cases (regex_search pat s)) [
  | inl e ↦ rw (search_loop-none pat n query s e) h
  | inr (m, e) ↦
      let (_, plain) = subst (IsShort (length s)) e (regex_search-IsShort pat s) in
      rw (search_loop-some pat n query s m e) (
        search_loop-Plain pat n (assign (take 2 m.text) (drop 3 m.text) query) m.suffix
          (λ k. if_both (All IsValue) (same (take 2 m.text) k) plain (h k)))
]

-- Whatever the query holds, a value that is read from it has only digits, points and small letters.
pub parse_query_string-IsValue :
    (pat : Pattern) (s k : Bytes) → All IsValue (parse_query_string pat s k)
unfolding parse_query_string
parse_query_string-IsValue pat s = search_loop-Plain pat (suc (length s)) (λ k. []) s (λ k. tt)
