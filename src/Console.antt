-- ===== src/Console.antt =====
-- The console of the remote shell, nctu_np_project3/console.cpp: NpShellRun, and what main makes of
-- the query, a map from keys such as "h0" to values, where a key that was not set reads as "".
pub mod Laws
pub mod Connect
pub mod Query
pub mod Main
use network_programming_nctu.Strings.Decimal.{decimal}
use network_programming_nctu.Base.{
  Bool, true, false, ◌||◌, not, List, [], ◌∷◌, ◌++◌, Bytes, codes, ◌==◌, if◌then◌else◌, keep, ◌&&◌,
  ℕ, zero, suc,
}

-- The `switch` of encode.
unfoldable pub escape : ℕ → Bytes
escape c =
    if c == b'&'
    then codes "&amp;"
    else if c == 34
    then codes "&quot;"
    else if c == 39
    then codes "&apos;"
    else if c == b'<'
    then codes "&lt;"
    else if c == b'>'
    then codes "&gt;"
    else c ∷ []

unfoldable pub encode : Bytes → Bytes
encode [] = []
encode (c ∷ s) = escape c ++ encode s

-- The first loop of write_to_console: each newline is replaced, and what replaces it has none.
unfoldable pub new_lines : Bytes → Bytes
new_lines [] = []
new_lines (c ∷ s) =
    let rest = new_lines s in if c == 10 then codes "&NewLine;" ++ rest else c ∷ rest

-- Both loops; the second one takes the carriage returns out.
unfoldable pub one_line : Bytes → Bytes
one_line s = keep (λ c. not (c == 13)) (new_lines s)

-- `id` names the element of the page; `page` is what was written to the standard output, and
-- `sent` what was written to the shell's socket.
pub record NpShellRun : Type 0 where
  pub id : Bytes
  pub command : List Bytes
  pub page : Bytes
  pub sent : Bytes

unfoldable pub script : Bytes → Bytes → Bytes
script id text =
    codes "<script>document.getElementById('"
    ++ (id ++ (codes "').innerHTML += \"" ++ (one_line text ++ codes "\";</script>\n")))

unfoldable pub write_to_console : Bytes → NpShellRun → NpShellRun
write_to_console text c = record c { page = c.page ++ script c.id text }

unfoldable pub has_prompt : Bytes → Bool
has_prompt [] = false
has_prompt (c ∷ s) = (c == b'%') || has_prompt s

-- The first command is shown and sent.
unfoldable pub send_command : Bytes → List Bytes → NpShellRun → NpShellRun
send_command line rest c =
    let shown = write_to_console (codes " &NewLine;") (write_to_console (encode line) c) in
    record shown { command = rest; sent = shown.sent ++ (line ++ 10 ∷ []) }

unfoldable pub answer : Bool → List Bytes → NpShellRun → NpShellRun
answer false lines c = c
answer true [] c = c
answer true (line ∷ rest) c = send_command line rest c

-- The handler of a read that succeeds: a `%` in the answer stands for the prompt.
unfoldable pub do_read : Bytes → NpShellRun → NpShellRun
do_read response c =
    answer (has_prompt (encode response)) c.command (write_to_console (encode response) c)

unfoldable pub run_reads : List Bytes → NpShellRun → NpShellRun
run_reads [] c = c
run_reads (r ∷ rs) c = run_reads rs (do_read r c)

-- `typedef struct {…} host_info`
pub record HostInfo : Type 0 where
  pub id : Bytes
  pub host : Bytes
  pub port : Bytes
  pub file : Bytes

abbrev pub is_set : Bytes → Bool
is_set [] = false
is_set (c ∷ s) = true

-- "h0", "p0", "f0" and so on.
unfoldable pub key : ℕ → ℕ → Bytes
key letter i = letter ∷ decimal i

unfoldable pub is_complete : (Bytes → Bytes) → ℕ → Bool
is_complete query i =
    is_set (query (key b'h' i)) && (is_set (query (key b'p' i)) && is_set (query (key b'f' i)))

-- The head of a column.
unfoldable pub column_head : (Bytes → Bytes) → ℕ → Bytes
column_head query i =
    if is_set (query (key b'h' i))
    then (if is_set (query (key b'p' i)) && is_set (query (key b'f' i))
        then codes "<th scope=\"col\">"
          ++ (query (key b'h' i) ++ (codes ":" ++ (query (key b'p' i) ++ codes "</th>\n")))
        else codes "<th scope=\"col\">LOSS [PORT] or [FILE]</th>\n")
    else []

-- The element that a session writes to.
unfoldable pub column_body : (Bytes → Bytes) → ℕ → Bytes
column_body query i =
    if is_set (query (key b'h' i))
    then codes "<td><pre id=" ++ (key b'h' i ++ codes " class=\"mb-0\"></pre></td>\n")
    else []

unfoldable pub info_of : (Bytes → Bytes) → ℕ → HostInfo
info_of query i = record {
  id = key b'h' i;
  host = query (key b'h' i);
  port = query (key b'p' i);
  file = query (key b'f' i);
}

-- The rounds of `for (i = 0; i < 5; i++)` that are left, and the index: the sessions started.
unfoldable pub sessions_from : ℕ → ℕ → (Bytes → Bytes) → List HostInfo
sessions_from zero i query = []
sessions_from (suc n) i query =
    let rest = sessions_from n (suc i) query in
    if is_complete query i then info_of query i ∷ rest else rest

unfoldable pub columns_from : (ℕ → Bytes) → ℕ → ℕ → Bytes
columns_from column zero i = []
columns_from column (suc n) i = column i ++ columns_from column n (suc i)

unfoldable pub sessions : (Bytes → Bytes) → List HostInfo
sessions query = sessions_from 5 0 query

-- The body of the page.
unfoldable pub page_body : (Bytes → Bytes) → Bytes
page_body query =
    codes "<body><table class=\"table table-dark table-bordered\"><thead><tr>"
    ++ (columns_from (column_head query) 5 0
        ++ (codes "</tr></thead><tbody><tr>"
            ++ (columns_from (column_body query) 5 0
                ++ codes "</tr></tbody></table></body></html>")))

-- NpShellRun.start: the lines of the file are the commands.
unfoldable pub start_run : (Bytes → List Bytes) → HostInfo → NpShellRun
start_run lines_of info = record {
  id = info.id;
  command = lines_of (codes "test_case/" ++ info.file);
  page = [];
  sent = [];
}
