-- ===== src/Filters/Laws.antt =====
-- What the filters print.
use network_programming_nctu.Base.{
  ℕ, suc, ◌≡◌, ◌≢◌, refl, ◌∙◌, Bool, true, false, ◌==◌, List, [], ◌∷◌, ◌++◌, append_assoc,
  append-nil, Bytes, length, keep, All, arith,
}
use network_programming_nctu.Filters.{
  removetag_from, removetag, Output, puts, sleeps, delayed_from, delayedremovetag, TagState, TagEnd,
  ends, overruns, tag_char, tag_round, go_on, tag_loop, removetag0,
}

abbrev pub IsText : ℕ → Type 0
IsText c = (c ≢ b'<') × (c ≢ b'>')

removetag_from-IsText : (t : Bool) (s : Bytes) → All IsText (removetag_from t s)
unfolding removetag_from
removetag_from-IsText t [] = tt
removetag_from-IsText true (c ∷ s) =
    ground (arith, removetag_from-IsText true s, removetag_from-IsText false s)
removetag_from-IsText false (c ∷ s) =
    ground (arith, removetag_from-IsText true s, removetag_from-IsText false s)

removetag_of_text : (s : Bytes) → All IsText s → removetag_from false s ≡ s
unfolding removetag_from
removetag_of_text [] h = refl
removetag_of_text (c ∷ s) (p, h) = ground (arith, removetag_of_text s h)

-- The output of removetag holds no `<` and no `>`, and removing tags again changes nothing.
pub removetag_clean :
    (s : Bytes) → All IsText (removetag s) × (removetag (removetag s) ≡ removetag s)
unfolding removetag
removetag_clean s = let clean = removetag_from-IsText false s in (clean, removetag_of_text _ clean)

-- The characters among what is put and slept.
abbrev pub printed_text : List Output → Bytes
printed_text [] = []
printed_text (puts c ∷ os) = c ∷ printed_text os
printed_text (sleeps ∷ os) = printed_text os

abbrev pub naps : List Output → ℕ
naps [] = 0
naps (puts c ∷ os) = naps os
naps (sleeps ∷ os) = suc (naps os)

delayed_from_lem :
    (t : Bool) (s : Bytes)
    → (printed_text (delayed_from t s) ≡ removetag_from t s)
      × (naps (delayed_from t s) ≡ length (keep (λ c. c == 10) (removetag_from t s)))
unfolding delayed_from removetag_from
delayed_from_lem t [] = (refl, refl)
delayed_from_lem true (c ∷ s) = ground (arith, delayed_from_lem true s, delayed_from_lem false s)
delayed_from_lem false (c ∷ s) = ground (arith, delayed_from_lem true s, delayed_from_lem false s)

-- delayedremovetag prints what removetag prints, and sleeps once for each newline of it.
pub delayedremovetag-removetag :
    (s : Bytes)
    → (printed_text (delayedremovetag s) ≡ removetag s)
      × (naps (delayedremovetag s) ≡ length (keep (λ c. c == 10) (removetag s)))
unfolding delayedremovetag removetag
delayedremovetag-removetag s = delayed_from_lem false s

-- One round keeps what was printed together with what is still to be printed.
tag_round_lem :
    (c : ℕ) (s : Bytes) (st st' : TagState)
    → tag_round c st ≡ ends st'
    → st'.out ++ removetag_from st'.in_tag s ≡ st.out ++ removetag_from st.in_tag (c ∷ s)
unfolding tag_round tag_char removetag_from
tag_round_lem c s st st' e =
    ground (arith, append_assoc st.out (c ∷ []) (removetag_from st'.in_tag s))

go_on-eq-ends :
    (k : TagState → TagEnd) (x : TagEnd) (st : TagState)
    → go_on k x ≡ ends st
    → (st' : TagState) × (x ≡ ends st') × (k st' ≡ ends st)
go_on-eq-ends k (ends st') st e = (st', refl, e)
go_on-eq-ends k overruns st e = cc

not_eof : (c : ℕ) → c ≢ 255 → (c == 255) ≡ false
not_eof c h = ground arith

tag_loop_lem :
    (s : Bytes) (st st' : TagState)
    → All (λ c. c ≢ 255) s
    → tag_loop s st ≡ ends st'
    → st'.out ≡ st.out ++ removetag_from st.in_tag s
unfolding tag_loop
tag_loop_lem [] st st' h e = unfold removetag_from in ground (arith, append-nil st.out)
tag_loop_lem (c ∷ s) st st' (p, h) e =
    let (mid, stepped, later) =
      go_on-eq-ends (tag_loop s) (tag_round c st) st' (rw (not_eof c p) at e) in
    tag_loop_lem s mid st' h later ∙ tag_round_lem c s st mid stepped

-- removetag0 prints what removetag prints, on a text without the byte 255 whose tags fit its array.
pub removetag0-removetag :
    (s : Bytes) (st : TagState)
    → All (λ c. c ≢ 255) s
    → removetag0 s ≡ ends st
    → st.out ≡ removetag s
unfolding removetag0 removetag
removetag0-removetag s st h e = tag_loop_lem s _ st h e
