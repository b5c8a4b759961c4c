-- ===== src/Console/Main/Laws.antt =====
-- From a form in the browser, by the HTTP server, to the sessions of the console.
use network_programming_nctu.Base.{
  ℕ, zero, suc, length, ◌≤◌, ◌+◌, ◌<◌, ◌≡◌, refl, ap, ◌∙◌, true, ◌&&◌, List, [], ◌∷◌, ◌++◌, some,
  Bytes, codes, same, if◌then◌else◌, All, All-append, All-mono, arith, map,
}
use network_programming_nctu.Strings.Decimal.{decimal}
use network_programming_nctu.Rwg.State.{get_env}
use network_programming_nctu.Http.{Connection, Cgi, do_read}
use network_programming_nctu.Http.Laws.{Lacks, IsVisible, request, IsRequest, do_read_lem}
use network_programming_nctu.Console.{
  HostInfo, key, is_set, is_complete, info_of, sessions_from, sessions,
}
use network_programming_nctu.Console.Query.{Pattern, pattern_3, pattern_4, parse_query_string}
use network_programming_nctu.Console.Query.Laws.{IsValue, parse_query_string-IsValue}
use network_programming_nctu.Console.Query.Form.{
  Field, IsRead, form_text, field_text, assign_all, parse_query_string-form,
}
use network_programming_nctu.Console.Main.{main, connect, relayed_main}
use network_programming_nctu.Console.Laws.{IsStarted, sessions_iff}
use network_programming_nctu.Console.Connect.{Completions, send_sock_request}

-- A row of the panel.
pub record Row : Type 0 where
  pub host : Bytes
  pub port : Bytes
  pub file : Bytes

abbrev pub IsFilled : Row → Type 0
IsFilled r = All IsValue r.host × All IsValue r.port × All IsValue r.file

-- The fields of the rows `i`, `i + 1`, … of a form, `n` rows of them.
abbrev pub fields_from : ℕ → ℕ → (ℕ → Row) → List Field
fields_from zero i rows = []
fields_from (suc n) i rows =
    record { letter = b'h'; digit = b'0' + i; value = (rows i).host }
    ∷ record { letter = b'p'; digit = b'0' + i; value = (rows i).port }
    ∷ record { letter = b'f'; digit = b'0' + i; value = (rows i).file }
    ∷ fields_from n (suc i) rows

-- The sessions that the form asks for.
abbrev pub asked_from : ℕ → ℕ → (ℕ → Row) → List HostInfo
asked_from zero i rows = []
asked_from (suc n) i rows =
    let rest = asked_from n (suc i) rows in
    let info : HostInfo = record {
      id = b'h' ∷ (b'0' + i) ∷ [];
      host = (rows i).host;
      port = (rows i).port;
      file = (rows i).file;
    } in
    if is_set (rows i).host && (is_set (rows i).port && is_set (rows i).file)
    then info ∷ rest
    else rest

sessions-assign_all :
    (rows : ℕ → Row) → sessions (assign_all (fields_from 5 0 rows) (λ k. [])) ≡ asked_from 5 0 rows
unfolding sessions sessions_from is_complete info_of key decimal same
sessions-assign_all rows = refl

-- A pattern that takes the names of the rows.
abbrev TakesRows : Pattern → Type 0
TakesRows pat =
    (pat.first b'h' ≡ true)
    × (pat.first b'p' ≡ true)
    × (pat.first b'f' ≡ true)
    × ((i : ℕ) → i < 10 → pat.second (b'0' + i) ≡ true)

form-IsRead :
    (pat : Pattern) (n i : ℕ) (rows : ℕ → Row)
    → TakesRows pat
    → i + n < 10
    → ((j : ℕ) → IsFilled (rows j))
    → All (IsRead pat) (fields_from n i rows)
form-IsRead pat zero i rows t h f = tt
form-IsRead pat (suc n) i rows (th, tp, tf, td) h f =
    let (host, port, file) = f i in
    (
      (th, td i (omega arith), host),
      (
        (tp, td i (omega arith), port),
        (
          (tf, td i (omega arith), file),
          form-IsRead pat n (suc i) rows (th, tp, tf, td) (omega arith) f,
        ),
      ),
    )

pattern_3-TakesRows : TakesRows pattern_3
pattern_3-TakesRows = (refl, refl, refl, λ i h. ground arith)

pattern_4-TakesRows : TakesRows pattern_4
pattern_4-TakesRows = (refl, refl, refl, λ i h. ground arith)

-- What holds of the characters of the fields, of `=` and of `&`, holds of a form's text.
form_text-All :
    (P : ℕ → Type 0)
    → P b'='
    → P b'&'
    → (fs : List Field) → All (λ (f : Field). P f.letter × P f.digit × All P f.value) fs
    → All P (form_text fs)
form_text-All P e a [] h = tt
form_text-All P e a (f ∷ []) ((l, d, v), h) = (l, (d, (e, v)))
form_text-All P e a (f ∷ g ∷ fs) ((l, d, v), h) =
    All-append P (field_text f) (b'&' ∷ form_text (g ∷ fs)) (l, (d, (e, v)))
      (a, form_text-All P e a (g ∷ fs) h)

form-IsVisible :
    (n i : ℕ) (rows : ℕ → Row)
    → ((j : ℕ) → IsFilled (rows j))
    → All IsVisible (form_text (fields_from n i rows))
form-IsVisible n i rows f =
    form_text-All IsVisible (omega arith) (omega arith) (fields_from n i rows) (fields n i)
  where
    visible : (v : Bytes) → All IsValue v → All IsVisible v
    visible = All-mono (λ c h. ground arith)

    fields :
        (k j : ℕ)
        → All
            (λ (g : Field). IsVisible g.letter × IsVisible g.digit × All IsVisible g.value)
            (fields_from k j rows)
    fields zero j = tt
    fields (suc k) j =
        let (host, port, file) = f j in
        (
          (omega arith, omega arith, visible (rows j).host host),
          (
            (omega arith, omega arith, visible (rows j).port port),
            ((omega arith, omega arith, visible (rows j).file file), fields k (suc j)),
          ),
        )

-- The request for a path with the panel's form, filled in.
abbrev pub form_request : Bytes → Bytes → Bytes → Bytes → Bytes → (ℕ → Row) → Bytes
form_request method path protocol name tail rows =
    request method path (form_text (fields_from 5 0 rows)) protocol name tail

-- The words of such a request.
pub record IsFormRequest (method path protocol name : Bytes) (rows : ℕ → Row) : Type 0 where
  pub method_visible : All IsVisible method
  pub path_visible : All IsVisible path
  pub path_ends : Lacks b'?' path
  pub protocol_ends : Lacks 10 protocol
  pub name_ends : Lacks 10 name
  pub filled : (j : ℕ) → IsFilled (rows j)

pub form-IsRequest :
    (method path protocol name : Bytes) (rows : ℕ → Row)
    → IsFormRequest method path protocol name rows
    → IsRequest method path (form_text (fields_from 5 0 rows)) protocol name
form-IsRequest method path protocol name rows f = record {
  method_visible = f.method_visible;
  path_visible = f.path_visible;
  query_visible = form-IsVisible 5 0 rows f.filled;
  path_ends = f.path_ends;
  protocol_ends = f.protocol_ends;
  name_ends = f.name_ends;
}

-- The loop reads the panel's form as the sessions that it asks for.
pub sessions-form :
    (rows : ℕ → Row)
    → ((j : ℕ) → IsFilled (rows j))
    → sessions (parse_query_string pattern_3 (form_text (fields_from 5 0 rows)))
      ≡ asked_from 5 0 rows
sessions-form rows filled =
    ap sessions (
      parse_query_string-form pattern_3 (fields_from 5 0 rows)
        (form-IsRead pattern_3 5 0 rows pattern_3-TakesRows (omega arith) filled) refl)
    ∙ sessions-assign_all rows

-- The panel's form, filled in and sent with a request of 1,024 bytes at most for a path: the HTTP server runs the path's
-- program, and that program, if it is the console, starts exactly the sessions of the rows that have
-- a host, a port and a file, in their order. The rows hold digits, points and small letters.
pub panel_starts_sessions :
    (c : Connection) (method path protocol name tail : Bytes) (rows : ℕ → Row)
    → IsFormRequest method path protocol name rows
    → length (form_request method path protocol name tail rows) ≤ 1024
    → (cgi : Cgi) × (do_read c (form_request method path protocol name tail rows) ≡ some cgi)
      × (cgi.path ≡ codes "." ++ path)
      × ((main (get_env (codes "QUERY_STRING") cgi.environment)).started
          ≡ some (asked_from 5 0 rows))
unfolding main
panel_starts_sessions c method path protocol name tail rows f short =
    let (cgi, runs, at, query) =
      do_read_lem method path (form_text (fields_from 5 0 rows)) protocol name tail
        (form-IsRequest method path protocol name rows f) c short in
    (cgi, runs, at, ap (λ q. (main q).started) query ∙ ap some (sessions-form rows f.filled))

-- Whatever the query holds, it brings nothing but digits, points and small letters into a session:
-- the file that is opened lies in test_case, as its name has no `/`.
pub started_are_plain :
    (s : Bytes) (infos : List HostInfo) (info : HostInfo)
    → (main (some s)).started ≡ some infos
    → IsStarted info infos
    → All IsValue info.host × All IsValue info.port × All IsValue info.file × Lacks b'/' info.file
unfolding main info_of
started_are_plain s infos info e h =
    let query = parse_query_string pattern_3 s in
    let plain = parse_query_string-IsValue pattern_3 s in
    let started : IsStarted info (sessions query) = rw (some_injective e) h in
    let (k, _, _, same_info) = (sessions_iff query info).0 started in
    rw same_info (
      plain (key b'h' k),
      plain (key b'p' k),
      plain (key b'f' k),
      All-mono (λ c v. ground arith) (query (key b'f' k)) (plain (key b'f' k)),
    )
  where
    some_injective : {xs ys : List HostInfo} → some xs ≡ some ys → xs ≡ ys
    some_injective p = cc

abbrev pub server_fields : Bytes → Bytes → List Field
server_fields host port =
    record { letter = b's'; digit = b'h'; value = host }
    ∷ record { letter = b's'; digit = b'p'; value = port }
    ∷ []

-- The form of project 4, which also names a SOCKS server.
abbrev pub relayed_fields : (ℕ → Row) → Bytes → Bytes → List Field
relayed_fields rows host port = fields_from 5 0 rows ++ server_fields host port

sessions-relayed :
    (rows : ℕ → Row) (host port : Bytes) (c : Bytes → Completions)
    → let query = assign_all (relayed_fields rows host port) (λ k. []) in
      map (connect c query) (sessions query)
      ≡ map (λ info. (info, send_sock_request (c info.id) info host port)) (asked_from 5 0 rows)
unfolding sessions sessions_from is_complete info_of key decimal same
sessions-relayed rows host port c = refl

-- The console of project 4 reads such a form: it asks the SOCKS server that the form names for each
-- of the rows that have a host, a port and a file, in their order, and for nothing else.
pub relayed_main_lem :
    (c : Bytes → Completions) (rows : ℕ → Row) (host port : Bytes)
    → ((j : ℕ) → IsFilled (rows j))
    → All IsValue host
    → All IsValue port
    → (relayed_main c (some (form_text (relayed_fields rows host port)))).started
      ≡ some
          (map (λ info. (info, send_sock_request (c info.id) info host port)) (asked_from 5 0 rows))
unfolding relayed_main
relayed_main_lem c rows host port hf hh hp =
    ap (λ q. some (map (connect c q) (sessions q)))
      (parse_query_string-form pattern_4 (relayed_fields rows host port)
        (All-append (IsRead pattern_4) (fields_from 5 0 rows) (server_fields host port)
          (form-IsRead pattern_4 5 0 rows pattern_4-TakesRows (omega arith) hf)
          ((refl, refl, hh), ((refl, refl, hp), tt)))
        refl)
    ∙ ap some (sessions-relayed rows host port c)
