-- ===== src/Filters.antt =====
-- The commands that users run in pipelines: nctu_np_project3/command.
pub mod Laws
pub mod Stdio
use network_programming_nctu.Base.{
  ℕ, zero, suc, ◌+◌, ◌-◌, ◌%◌, Bool, true, false, not, ◌&&◌, ◌||◌, List, [], ◌∷◌, ◌++◌, Option,
  none, some, Bytes, codes, ltb, leb, ◌==◌, if◌then◌else◌, length,
}
use network_programming_nctu.Strings.Decimal.{decimal}

-- removetag.cpp: the loop, from a value of in_tag on.
unfoldable pub removetag_from : Bool → Bytes → Bytes
removetag_from in_tag [] = []
removetag_from in_tag (c ∷ s) =
    let opened = removetag_from true s in
    let closed = removetag_from false s in
    let skipped = removetag_from in_tag s in
    if c == b'<'
    then opened
    else if c == b'>'
    then closed
    else if in_tag
    then skipped
    else c ∷ skipped

unfoldable pub removetag : Bytes → Bytes
unfolding removetag_from
removetag s = removetag_from false s

-- What delayedremovetag.cpp does, in order: a flush and a sleep behind each newline.
pub data Output : Type 0 where
  puts : ℕ → Output
  sleeps : Output

unfoldable pub delayed_from : Bool → Bytes → List Output
delayed_from in_tag [] = []
delayed_from in_tag (c ∷ s) =
    let opened = delayed_from true s in
    let closed = delayed_from false s in
    let skipped = delayed_from in_tag s in
    if c == b'<'
    then opened
    else if c == b'>'
    then closed
    else if in_tag
    then skipped
    else puts c ∷ (if c == 10 then sleeps ∷ skipped else skipped)

unfoldable pub delayedremovetag : Bytes → List Output
unfolding delayed_from
delayedremovetag s = delayed_from false s

abbrev pub is_alpha : ℕ → Bool
is_alpha c = (leb b'a' c && leb c b'z') || (leb b'A' c && leb c b'Z')

-- The variables of removetag0.cpp; `tag` is TagMsg up to iCount.
pub record TagState : Type 0 where
  pub in_tag : Bool
  pub err_tag : Bool
  pub tag : Bytes
  pub out : Bytes
  pub err : List Bytes

pub data TagEnd : Type 0 where
  ends : TagState → TagEnd
  -- a write behind TagMsg[1024]
  overruns : TagEnd

unfoldable pub illegal_tag : Bytes → Bytes
illegal_tag tag = codes "Error: illegal tag \"" ++ (tag ++ codes "\"\n")

-- One round of the loop for a character that is neither `<` nor `>`.
unfoldable pub tag_char : ℕ → TagState → TagEnd
tag_char c st =
    if st.in_tag
    then (if ltb (length st.tag) 1024
        then ends (record st {
          tag = st.tag ++ c ∷ [];
          err_tag = st.err_tag || not (is_alpha c || (c == b'/'));
        })
        else overruns)
    else if st.err_tag
    then (if ltb (length st.tag) 1024
        then ends (record st {
          err_tag = false;
          tag = [];
          out = st.out ++ c ∷ [];
          err = st.err ++ illegal_tag st.tag ∷ [];
        })
        else overruns)
    else ends (record st { tag = []; out = st.out ++ c ∷ [] })

unfoldable pub tag_round : ℕ → TagState → TagEnd
tag_round c st =
    if c == b'<'
    then ends (record st { in_tag = true })
    else if c == b'>'
    then ends (record st { in_tag = false })
    else tag_char c st

abbrev pub go_on : (TagState → TagEnd) → TagEnd → TagEnd
go_on k (ends st') = k st'
go_on k overruns = overruns

-- `c` is a signed char, so the byte 255 compares equal to EOF and ends the loop too.
unfoldable pub tag_loop : Bytes → TagState → TagEnd
tag_loop [] st = ends st
tag_loop (c ∷ s) st =
    let more = go_on (tag_loop s) (tag_round c st) in if c == 255 then ends st else more

unfoldable pub removetag0 : Bytes → TagEnd
removetag0 s = tag_loop s (record { in_tag = false; err_tag = false; tag = []; out = []; err = [] })

-- number.cpp: the lines that getline reads; the last one may lack its newline.
unfoldable pub lines_from : Bytes → Bytes → List Bytes
lines_from [] [] = []
lines_from (b ∷ cur) [] = (b ∷ cur) ∷ []
lines_from cur (c ∷ s) =
    let closed = cur ∷ lines_from [] s in
    let longer = lines_from (cur ++ c ∷ []) s in if c == 10 then closed else longer

-- `setw(4)`, filled with spaces on the left.
unfoldable pub pad : ℕ → Bytes → Bytes
pad zero s = s
pad (suc n) s = if ltb (length s) (suc n) then 32 ∷ pad n s else s

-- `++line_count` of an unsigned int of 32 bits
unfoldable pub number_lines : ℕ → List Bytes → Bytes
number_lines count [] = []
number_lines count (line ∷ lines) =
    let next = suc count % 4294967296 in
    pad 4 (decimal next) ++ (32 ∷ (line ++ (10 ∷ number_lines next lines)))

unfoldable pub number : Bytes → Bytes
unfolding lines_from
number s = number_lines 0 (lines_from [] s)
