-- ===== src/Filters/Stdio.antt =====
-- The commands of nctu_np_project2/final/command/source_code, which read by fgetc.
pub mod Laws
use mathlib.Core.Option
use network_programming_nctu.Base.{
  ℕ, suc, Bool, true, false, List, [], ◌∷◌, ◌++◌, Option, none, some, ltb, Bytes, codes, ◌==◌,
  if◌then◌else◌,
}
use network_programming_nctu.Strings.Decimal.{decimal}
use network_programming_nctu.Solo.Batch.{c_string, is_empty}
use network_programming_nctu.Filters.{pad}

-- removetag.cpp: the loop, from a value of inTag on. `c` is a signed char, so the byte 255 compares
-- equal to EOF.
unfoldable pub skip_tags : Bool → Bytes → Bytes
skip_tags in_tag [] = []
skip_tags in_tag (c ∷ s) =
    let opened = skip_tags true s in
    let closed = skip_tags false s in
    let skipped = skip_tags in_tag s in
    if c == 255
    then []
    else if c == b'<'
    then opened
    else if c == b'>'
    then closed
    else if in_tag
    then skipped
    else c ∷ skipped

-- number.cpp: `fprintf(stdout, "%4d %s", counter++, str.c_str())`
unfoldable pub numbered : ℕ → Bytes → Bytes
numbered counter str = pad 4 (decimal counter) ++ (32 ∷ c_string str)

-- The largest int.
abbrev pub int_max : ℕ
int_max = 2147483647

-- Behind the loop: a last line that lacks its newline. `none`: counter++ overflows.
unfoldable pub last_line : ℕ → Bytes → Option Bytes
last_line counter str =
    if is_empty (c_string str)
    then some []
    else if ltb counter int_max
    then some (codes "   " ++ (decimal counter ++ (32 ∷ (str ++ 10 ∷ []))))
    else none

-- The loop, from the values of counter and str on.
unfoldable pub number_chars : ℕ → Bytes → Bytes → Option Bytes
number_chars counter str [] = last_line counter str
number_chars counter str (c ∷ s) =
    let behind = number_chars (suc counter) [] s in
    let longer = number_chars counter (str ++ c ∷ []) s in
    if c == 255
    then last_line counter str
    else if c == 10
    then (if ltb counter int_max
        then Option.map (λ text. numbered counter (str ++ c ∷ []) ++ text) behind
        else none)
    else longer
