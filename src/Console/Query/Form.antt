-- ===== src/Console/Query/Form.antt =====
-- What a browser sends for a form, and what the loop reads of it.
use network_programming_nctu.Base.{
  ℕ, zero, suc, ◌<◌, ◌≤◌, ◌≡◌, refl, ap, ◌∙◌, true, false, List, [], ◌∷◌, ◌++◌, some, Bytes, length,
  All, arith, length-append, append-nil, sym,
}
use network_programming_nctu.Console.Query.{
  is_value, Pattern, value_run, match_equals, match_second, match_here, regex_search, Query, assign,
  search_loop, parse_query_string,
}
use network_programming_nctu.Console.Query.Laws.{IsValue, search_loop-none, search_loop-some}

-- A field of a form, with a name of two characters.
pub record Field : Type 0 where
  pub letter : ℕ
  pub digit : ℕ
  pub value : Bytes

abbrev pub field_key : Field → Bytes
field_key f = f.letter ∷ f.digit ∷ []

abbrev pub field_text : Field → Bytes
field_text f = f.letter ∷ f.digit ∷ b'=' ∷ f.value

-- "k=v&k=v"
abbrev pub form_text : List Field → Bytes
form_text [] = []
form_text (f ∷ []) = field_text f
form_text (f ∷ g ∷ fs) = field_text f ++ b'&' ∷ form_text (g ∷ fs)

abbrev pub assign_all : List Field → Query → Query
assign_all [] query = query
assign_all (f ∷ fs) query = assign_all fs (assign (field_key f) f.value query)

-- A field whose name the pattern takes, and whose value is one.
abbrev pub IsRead : Pattern → Field → Type 0
IsRead pat f = (pat.first f.letter ≡ true) × (pat.second f.digit ≡ true) × All IsValue f.value

-- A text that does not go on with a value.
abbrev GoesOn : Bytes → Type 0
GoesOn [] = Unit {0}
GoesOn (c ∷ s) = is_value c ≡ false

value_run_lem : (v s : Bytes) → All IsValue v → GoesOn s → value_run (v ++ s) ≡ (v, s)
unfolding value_run
value_run_lem [] [] h e = refl
value_run_lem [] (c ∷ s) h e = rw e refl
value_run_lem (c ∷ v) s (p, h) e = rw (p, value_run_lem v s h e) refl

module _ (pat : Pattern) where
  match_here-field :
      (f : Field) (s : Bytes)
      → IsRead pat f
      → GoesOn s
      → match_here pat (field_text f ++ s) ≡ some (record { text = field_text f; suffix = s })
  unfolding match_here match_second match_equals
  match_here-field f s (p, q, h) e = rw (p, q, value_run_lem f.value s h e) refl

  regex_search-field :
      (f : Field) (s : Bytes)
      → IsRead pat f
      → GoesOn s
      → regex_search pat (field_text f ++ s) ≡ some (record { text = field_text f; suffix = s })
  unfolding regex_search
  regex_search-field f s h e = rw (match_here-field f s h e, regex_search) refl

  regex_search_skip :
      (c : ℕ) (s : Bytes) → pat.first c ≡ false → regex_search pat (c ∷ s) ≡ regex_search pat s
  unfolding regex_search match_here
  regex_search_skip c s p = rw (p, regex_search) refl

  -- One field is read, whatever stands in front of it that the pattern does not take.
  search_loop-field :
      (f : Field) (s t : Bytes) (n : ℕ) (query : Query)
      → IsRead pat f
      → GoesOn s
      → regex_search pat t ≡ regex_search pat (field_text f ++ s)
      → search_loop pat (suc n) query t ≡ search_loop pat n (assign (field_key f) f.value query) s
  search_loop-field f s t n query p e same_search =
      search_loop-some pat n query t (record { text = field_text f; suffix = s })
        (same_search ∙ regex_search-field f s p e)

  -- The text `t` is a form, or a form behind a `&`.
  search_loop-form :
      (fs : List Field) (n : ℕ) (query : Query) (t : Bytes)
      → All (IsRead pat) fs
      → pat.first b'&' ≡ false
      → length fs < n
      → regex_search pat t ≡ regex_search pat (form_text fs)
      → (search_loop pat n query t).0 ≡ assign_all fs query
  search_loop-form fs zero query t h a l e = absurd (omega arith)
  search_loop-form [] (suc n) query t h a l e =
      ap (λ r. r.0) (search_loop-none pat n query t (e ∙ unfold regex_search in refl))
  search_loop-form (f ∷ []) (suc n) query t (p, h) a l e =
      ap (λ r. r.0)
        (search_loop-field f [] t n query p tt
          (e ∙ ap (regex_search pat) (sym (append-nil (field_text f)))))
      ∙ search_loop-form [] n (assign (field_key f) f.value query) [] tt a (omega arith) refl
  search_loop-form (f ∷ g ∷ fs) (suc n) query t (p, h) a l e =
      ap (λ r. r.0) (search_loop-field f (b'&' ∷ form_text (g ∷ fs)) t n query p refl e)
      ∙ search_loop-form (g ∷ fs) n (assign (field_key f) f.value query) (b'&' ∷ form_text (g ∷ fs))
          h a (omega arith) (regex_search_skip b'&' (form_text (g ∷ fs)) a)

-- A form's text holds at least as many characters as fields.
length-form_text : (fs : List Field) → length fs ≤ length (form_text fs)
length-form_text [] = omega arith
length-form_text (f ∷ []) = omega arith
length-form_text (f ∷ g ∷ fs) =
    omega
      (arith, length-form_text (g ∷ fs), length-append (field_text f) (b'&' ∷ form_text (g ∷ fs)))

-- The text of a form, its names taken by the pattern and its values of digits, points and small
-- letters, is read back: the map holds each field's value, that of the last one where a name
-- stands twice, and nothing else.
pub parse_query_string-form :
    (pat : Pattern) (fs : List Field)
    → All (IsRead pat) fs
    → pat.first b'&' ≡ false
    → parse_query_string pat (form_text fs) ≡ assign_all fs (λ k. [])
unfolding parse_query_string
parse_query_string-form pat fs h a =
    search_loop-form pat fs (suc (length (form_text fs))) (λ k. []) (form_text fs) h a
      (omega (arith, length-form_text fs)) refl
