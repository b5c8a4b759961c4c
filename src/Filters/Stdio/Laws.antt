-- ===== src/Filters/Stdio/Laws.antt =====
-- The commands of project 2 against those of project 3.
use mathlib.Core.Option
use network_programming_nctu.Base.{
  some, ltb, ◌%◌, List, ℕ, suc, ◌+◌, ◌<◌, ◌≤◌, ◌≡◌, ◌≢◌, ◌⊎◌, inl, inr, refl, ap, sym, subst, ◌∙◌,
  Bool, true, false, [], ◌∷◌, ◌++◌, All, All-append, append_assoc, length, Bytes, codes, ◌==◌,
  if◌then◌else◌, Bool-cases, ==_iff, arith,
}
use network_programming_nctu.Strings.Decimal.{decimal, digits_with}
use network_programming_nctu.Solo.Batch.{c_string, is_empty}
use network_programming_nctu.Filters.{number, removetag_from, lines_from, pad, number_lines}
use network_programming_nctu.Filters.Stdio.{int_max, skip_tags, numbered, last_line, number_chars}

-- What fgetc gives before the loop takes a byte for the end.
unfoldable pub up_to_eof : Bytes → Bytes
up_to_eof [] = []
up_to_eof (c ∷ s) = let rest = up_to_eof s in if c == 255 then [] else c ∷ rest

-- removetag of project 2 does to the bytes in front of the first 255 what that of project 3 does.
pub skip_tags-removetag_from :
    (in_tag : Bool) (s : Bytes) → skip_tags in_tag s ≡ removetag_from in_tag (up_to_eof s)
unfolding skip_tags removetag_from up_to_eof
skip_tags-removetag_from in_tag [] = refl
skip_tags-removetag_from in_tag (c ∷ s) = elim (Bool-cases (c == 255)) [
  | inl e ↦ rw e refl
  | inr e ↦
      let opened = skip_tags-removetag_from true s in
      let closed = skip_tags-removetag_from false s in
      let skipped = skip_tags-removetag_from in_tag s in ground (arith, e, opened, closed, skipped)
]

-- A byte that neither ends a C string nor compares equal to EOF.
abbrev pub IsPlain : ℕ → Type 0
IsPlain c = (c ≢ 0) × (c ≢ 255)

c_string-plain : (s : Bytes) → All IsPlain s → c_string s ≡ s
c_string-plain [] h = refl
c_string-plain (c ∷ s) ((z, e), h) = ground (arith, c_string-plain s h)

-- Whether no line is open, or a newline comes last.
unfoldable pub is_closed : Bool → Bytes → Bool
is_closed b [] = b
is_closed b (c ∷ s) = is_closed (c == 10) s

decimal_digit : (n : ℕ) → n < 10 → decimal n ≡ (b'0' + n) ∷ []
unfolding decimal digits_with
decimal_digit n h = ground arith

pad_digit : (n : ℕ) → n < 10 → pad 4 (decimal n) ≡ codes "   " ++ decimal n
unfolding pad
pad_digit n h = subst (λ (s : Bytes). pad 4 s ≡ codes "   " ++ s) (sym (decimal_digit n h)) refl

is_empty-last : (s : Bytes) (c : ℕ) → is_empty (s ++ c ∷ []) ≡ false
is_empty-last [] c = refl
is_empty-last (b ∷ s) c = refl

-- One line with its newline, and what follows.
numbered_lem :
    (n : ℕ) (cur rest : Bytes)
    → All IsPlain cur
    → numbered n (cur ++ 10 ∷ []) ++ rest ≡ pad 4 (decimal n) ++ (32 ∷ (cur ++ (10 ∷ rest)))
unfolding numbered
numbered_lem n cur rest h =
    ap (λ t. (pad 4 (decimal n) ++ (32 ∷ t)) ++ rest) (c_string-plain (cur ++ 10 ∷ []) plain)
    ∙ append_assoc (pad 4 (decimal n)) (32 ∷ (cur ++ 10 ∷ [])) rest
    ∙ ap (λ t. pad 4 (decimal n) ++ (32 ∷ t)) (append_assoc cur (10 ∷ []) rest)
  where
    plain : All IsPlain (cur ++ 10 ∷ [])
    plain = All-append IsPlain cur (10 ∷ []) h (ground arith, tt)

-- No counter overflows.
abbrev IsCountable : ℕ → List Bytes → Type 0
IsCountable n lines = n + length lines < int_max

wrapped : (n : ℕ) → suc n < int_max → suc n % 4294967296 ≡ suc n
wrapped n h = omega arith

number_lines_nil : (n : ℕ) → number_lines n [] ≡ []
unfolding number_lines
number_lines_nil n = refl

-- The number of the first line has not been wrapped around.
number_lines_lem :
    (n : ℕ) (line : Bytes) (lines : List Bytes)
    → suc n < int_max
    → number_lines n (line ∷ lines)
      ≡ pad 4 (decimal (suc n)) ++ (32 ∷ (line ++ (10 ∷ number_lines (suc n) lines)))
unfolding number_lines
number_lines_lem n line lines h =
    ap (λ k. pad 4 (decimal k) ++ (32 ∷ (line ++ (10 ∷ number_lines k lines)))) (wrapped n h)

last_line_lem :
    (n : ℕ) (b : ℕ) (cur : Bytes)
    → All IsPlain (b ∷ cur)
    → n < 9
    → last_line (suc n) (b ∷ cur) ≡ some (number_lines n ((b ∷ cur) ∷ []))
unfolding last_line
last_line_lem n b cur h k =
    rw (c_string-plain (b ∷ cur) h, fits)
      (ap some (
        ap (λ t. t ++ (32 ∷ (b ∷ cur) ++ 10 ∷ [])) (sym (pad_digit (suc n) (omega arith)))
        ∙ ap (λ t. pad 4 (decimal (suc n)) ++ (32 ∷ ((b ∷ cur) ++ (10 ∷ t))))
            (sym (number_lines_nil (suc n)))
        ∙ sym (number_lines_lem n (b ∷ cur) [] (omega arith))))
  where
    fits : ltb (suc n) int_max ≡ true
    fits = ground arith

-- What is left of the text has its last newline, or there are nine lines at most.
abbrev IsAligned : ℕ → Bytes → Bytes → Type 0
IsAligned n cur s = (is_closed (is_empty cur) s ≡ true) ⊎ (n + length (lines_from cur s) ≤ 9)

abbrev IsAgreed : ℕ → Bytes → Bytes → Type 0
IsAgreed n cur s =
    IsCountable n (lines_from cur s)
    → IsAligned n cur s
    → number_chars (suc n) cur s ≡ some (number_lines n (lines_from cur s))

ends_lem : (n : ℕ) (cur : Bytes) → All IsPlain cur → IsAgreed n cur []
unfolding number_chars last_line number_lines lines_from is_closed
ends_lem n [] h f a = refl
ends_lem n (b ∷ cur) h f (inl e) = cc
ends_lem n (b ∷ cur) h f (inr l) = last_line_lem n b cur h (omega arith)

newline_lem :
    (n : ℕ) (cur s : Bytes) → All IsPlain cur → IsAgreed (suc n) [] s → IsAgreed n cur (10 ∷ s)
unfolding number_chars lines_from is_closed
newline_lem n cur s h k f a = rw fits (
    ap (Option.map (λ text. numbered (suc n) (cur ++ 10 ∷ []) ++ text)) (k (omega arith) (behind a))
    ∙ ap some (
        numbered_lem (suc n) cur (number_lines (suc n) (lines_from [] s)) h
        ∙ sym (number_lines_lem n cur (lines_from [] s) (omega arith))))
  where
    fits : ltb (suc n) int_max ≡ true
    fits = ground arith

    behind : IsAligned n cur (10 ∷ s) → IsAligned (suc n) [] s
    behind (inl e) = inl e
    behind (inr l) = inr (omega arith)

longer_lem :
    (n : ℕ) (cur : Bytes) (c : ℕ) (s : Bytes)
    → IsPlain c
    → (c == 10) ≡ false
    → IsAgreed n (cur ++ c ∷ []) s
    → IsAgreed n cur (c ∷ s)
unfolding number_chars lines_from is_closed
longer_lem n cur c s (z, e) other k f a = rw (not_end, other) (k (rw other at f) (behind a))
  where
    not_end : (c == 255) ≡ false
    not_end = ground arith

    behind : IsAligned n cur (c ∷ s) → IsAligned n (cur ++ c ∷ []) s
    behind (inl f) =
        inl
          (ap (λ b. is_closed b s) (is_empty-last cur c) ∙ ap (λ b. is_closed b s) (sym other) ∙ f)
    behind (inr l) = inr (rw other at l)

number_chars_lem : (n : ℕ) (cur s : Bytes) → All IsPlain cur → All IsPlain s → IsAgreed n cur s
number_chars_lem n cur [] h k = ends_lem n cur h
number_chars_lem n cur (c ∷ s) h (p, k) =
    let behind = number_chars_lem (suc n) [] s tt k in
    let longer =
      number_chars_lem n (cur ++ c ∷ []) s (All-append IsPlain cur (c ∷ []) h (p, tt)) k in
    elim (Bool-cases (c == 10)) [
      | inl newline ↦
          subst (λ d. IsAgreed n cur (d ∷ s)) (sym ((==_iff c 10).0 newline))
            (newline_lem n cur s h behind)
      | inr other ↦ longer_lem n cur c s p other longer
    ]

-- A text without the bytes 0 and 255, of fewer than 2,147,483,647 lines, which is empty, or ends with a
-- newline, or has nine lines at most, is numbered alike in project 2 and in project 3.
pub number_chars-number :
    (s : Bytes)
    → All IsPlain s
    → length (lines_from [] s) < int_max
    → (is_closed true s ≡ true) ⊎ (length (lines_from [] s) ≤ 9)
    → number_chars 1 [] s ≡ some (number s)
unfolding number
number_chars-number s k f (inl e) = number_chars_lem 0 [] s tt k (omega arith) (inl e)
number_chars-number s k f (inr l) = number_chars_lem 0 [] s tt k (omega arith) (inr (omega arith))
