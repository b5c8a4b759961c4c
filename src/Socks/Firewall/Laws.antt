-- ===== src/Socks/Firewall/Laws.antt =====
-- What the firewall permits.
use network_programming_nctu.Base.{
  ℕ, zero, suc, ◌≡◌, ◌≢◌, ◌↔◌, ◌⊎◌, inl, inr, refl, sym, ap, ◌∙◌, true, List, [], ◌∷◌, ◌++◌, some,
  Bytes, codes, same_iff, length, take, All, arith, ◌==◌, ==_iff, Bool-cases,
}
use network_programming_nctu.Socks.Firewall.{
  before, rule_words, Verdict, permits, passes, out_of_range, matches_pattern, check_words,
  accepted, undefined, check_lines, firewall,
}

take_self-append : (p s : Bytes) → take (length p) (p ++ s) ≡ p
take_self-append [] s = refl
take_self-append (b ∷ p) s = ap (◌∷◌ b) (take_self-append p s)

take_split : (n : ℕ) (s : Bytes) → (r : Bytes) × (s ≡ take n s ++ r)
take_split zero s = (s, refl)
take_split (suc n) [] = ([], refl)
take_split (suc n) (b ∷ s) = let (r, e) = take_split n s in (r, ap (◌∷◌ b) e)

-- A pattern matches exactly the addresses that begin with what stands in front of its first `*`;
-- one without a `*` matches every address that it is a prefix of, and not only itself.
pub matches_pattern_iff :
    (pattern ip : Bytes)
    → (matches_pattern pattern ip ≡ true) ↔ ((rest : Bytes) × (ip ≡ before b'*' pattern ++ rest))
unfolding matches_pattern
matches_pattern_iff pattern ip = (
  λ h.
      let (r, e) = take_split (length (before b'*' pattern)) ip in
      (r, e ∙ ap (λ x. x ++ r) ((same_iff _ _).0 h)),
  λ (r, e). (same_iff _ _).1 (rw e (take_self-append (before b'*' pattern) r)),
)

-- A text without a `*`.
abbrev pub HasNoStar : Bytes → Type 0
HasNoStar s = All (λ c. c ≢ b'*') s

-- What stands in front of the first `*` of a pattern, all of it where there is none.
abbrev pub IsFront : Bytes → Bytes → Type 0
IsFront pattern front =
    HasNoStar front × ((pattern ≡ front) ⊎ ((back : Bytes) × (pattern ≡ front ++ b'*' ∷ back)))

before-front : (front : Bytes) → HasNoStar front → before b'*' front ≡ front
unfolding before
before-front [] h = refl
before-front (c ∷ front) (d, h) = ground (arith, before-front front h)

before-star : (front back : Bytes) → HasNoStar front → before b'*' (front ++ b'*' ∷ back) ≡ front
unfolding before
before-star [] back h = refl
before-star (c ∷ front) back (d, h) = ground (arith, before-star front back h)

IsFront-before : (pattern front : Bytes) → IsFront pattern front → before b'*' pattern ≡ front
IsFront-before pattern front (h, inl e) = ap (before b'*') e ∙ before-front front h
IsFront-before pattern front (h, inr (back, e)) = ap (before b'*') e ∙ before-star front back h

before-IsFront : (pattern : Bytes) → IsFront pattern (before b'*' pattern)
unfolding before
before-IsFront [] = (tt, inl refl)
before-IsFront (c ∷ s) = elim (Bool-cases (c == b'*')) [
  | inl e ↦ rw e (tt, inr (s, ap (λ d. d ∷ s) ((==_iff c b'*').0 e)))
  | inr e ↦ let (h, cases) = before-IsFront s in rw e ((ground arith, h), longer cases)
]
  where
    longer :
        (s ≡ before b'*' s) ⊎ ((back : Bytes) × (s ≡ before b'*' s ++ b'*' ∷ back))
        → (c ∷ s ≡ c ∷ before b'*' s)
          ⊎ ((back : Bytes) × (c ∷ s ≡ (c ∷ before b'*' s) ++ b'*' ∷ back))
    longer (inl e) = inl (ap (λ x. c ∷ x) e)
    longer (inr (back, e)) = inr (back, ap (λ x. c ∷ x) e)

-- A pattern covers the addresses that begin with its part in front of the `*`.
abbrev pub Covers : Bytes → Bytes → Type 0
Covers pattern ip = (front : Bytes) × (rest : Bytes) × IsFront pattern front × (ip ≡ front ++ rest)

matches_pattern-Covers :
    (pattern ip : Bytes) → (matches_pattern pattern ip ≡ true) ↔ Covers pattern ip
matches_pattern-Covers pattern ip = (
  λ h.
      let (rest, e) = (matches_pattern_iff pattern ip).0 h in
      (before b'*' pattern, rest, before-IsFront pattern, e),
  λ (front, rest, f, e).
      (matches_pattern_iff pattern ip).1
        (rest, e ∙ ap (λ x. x ++ rest) (sym (IsFront-before pattern front f))),
)

-- A rule that permits the command `cd` to the address `ip`.
abbrev pub Permits : Bytes → Bytes → Bytes → Type 0
Permits cd ip line =
    (pattern : Bytes) × (rest : List Bytes) × (rule_words line
      ≡ codes "permit" ∷ cd ∷ pattern ∷ rest)
    × Covers pattern ip

-- A line of at least three words.
abbrev pub IsRule : Bytes → Type 0
IsRule line = (a b c : Bytes) × (rest : List Bytes) × (rule_words line ≡ a ∷ b ∷ c ∷ rest)

abbrev pub Any : (Bytes → Type 0) → List Bytes → Type 0
Any P [] = ⊥
Any P (x ∷ xs) = P x ⊎ Any P xs

Verdict-cases : (v : Verdict) → (v ≡ permits) ⊎ (v ≡ passes) ⊎ (v ≡ out_of_range)
Verdict-cases permits = inl refl
Verdict-cases passes = inr (inl refl)
Verdict-cases out_of_range = inr (inr refl)

-- A line of three words permits exactly if it is a rule for this command whose pattern matches.
check_words_rule :
    (cd ip a b c : Bytes) (rest : List Bytes)
    → (check_words cd ip (a ∷ b ∷ c ∷ rest) ≢ out_of_range)
      × ((check_words cd ip (a ∷ b ∷ c ∷ rest) ≡ permits)
          ↔ ((a ≡ codes "permit") × (b ≡ cd) × (matches_pattern c ip ≡ true)))
unfolding check_words
check_words_rule cd ip a b c rest = (
  ground (arith, same_iff a (codes "permit"), same_iff b cd),
  (
    λ h. ground (arith, same_iff a (codes "permit"), same_iff b cd),
    λ h. ground (arith, same_iff a (codes "permit"), same_iff b cd),
  ),
)

check_rule :
    (cd ip line : Bytes)
    → IsRule line
    → (check_words cd ip (rule_words line) ≢ out_of_range)
      × ((check_words cd ip (rule_words line) ≡ permits) ↔ Permits cd ip line)
check_rule cd ip line (a, b, c, rest, e) =
    let (fine, iff) = check_words_rule cd ip a b c rest in
    (
      rw e fine,
      (
        λ h.
            let (ha, hb, hm) = iff.0 (rw e at h) in
            (c, rest, e ∙ (λ i. ha i ∷ hb i ∷ c ∷ rest), (matches_pattern-Covers c ip).0 hm),
        λ (p, more, words, hm). rw words (
            (check_words_rule cd ip (codes "permit") cd p more).1.1
              (refl, refl, (matches_pattern-Covers p ip).1 hm)),
      ),
    )

-- A line that permits decides, and one that passes leaves the decision to the rest.
check_lines_cons :
    (cd ip line : Bytes) (lines : List Bytes)
    → ((check_words cd ip (rule_words line) ≡ permits)
        → check_lines cd ip (line ∷ lines) ≡ accepted)
      × ((check_words cd ip (rule_words line) ≡ passes)
          → check_lines cd ip (line ∷ lines) ≡ check_lines cd ip lines)
      × ((check_words cd ip (rule_words line) ≡ out_of_range)
          → check_lines cd ip (line ∷ lines) ≡ undefined)
unfolding check_lines
check_lines_cons cd ip line lines =
    (λ h. rw (h, check_lines), λ h. rw (h, check_lines), λ h. rw (h, check_lines))

-- A blank line, or one that is all comment, that is reached behind rules which do not permit the
-- request: the firewall reads an element of an empty vector.
pub firewall_blank_line :
    (rules : List Bytes) (blank : Bytes) (rest : List Bytes) (cd ip : Bytes)
    → All IsRule rules
    → ¬ Any (Permits cd ip) rules
    → rule_words blank ≡ []
    → firewall (some (rules ++ blank ∷ rest)) cd ip ≡ undefined
unfolding firewall
firewall_blank_line [] blank rest cd ip h none_permits e =
    (check_lines_cons cd ip blank rest).2 (rw e (unfold check_words in refl))
firewall_blank_line (line ∷ rules) blank rest cd ip (p, h) none_permits e =
    let (fine, iff) = check_rule cd ip line p in
    let (_, miss, _) = check_lines_cons cd ip line (rules ++ blank ∷ rest) in
    elim (Verdict-cases (check_words cd ip (rule_words line))) [
      | inl x ↦ absurd (none_permits (inl (iff.0 x)))
      | inr (inl x) ↦
          miss x ∙ firewall_blank_line rules blank rest cd ip h (λ a. none_permits (inr a)) e
      | inr (inr x) ↦ absurd (fine x)
    ]

pub rule_words_comment : (s : Bytes) → rule_words (b'#' ∷ s) ≡ []
unfolding rule_words before
rule_words_comment s = refl
