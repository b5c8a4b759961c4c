-- ===== src/Cgi/Laws.antt =====
-- What the Windows server makes of the panel's form.
use mathlib.Core.Option
use network_programming_nctu.Base.{
  ℕ, length, ◌≤◌, ◌∷◌, ◌≡◌, ap, ◌∙◌, [], ◌++◌, some, Bytes, codes, same, drop, if◌then◌else◌,
}
use network_programming_nctu.Http.{Env, parse_header, program}
use network_programming_nctu.Http.Laws.{
  take_short, IsRequest, request_line, split_request-request, request_parsed,
}
use network_programming_nctu.Console.{sessions}
use network_programming_nctu.Console.Query.{pattern_3, parse_query_string}
use network_programming_nctu.Console.Query.Form.{form_text}
use network_programming_nctu.Console.Main.Laws.{
  Row, fields_from, asked_from, form_request, IsFormRequest, form-IsRequest, sessions-form,
}
use network_programming_nctu.Cgi.Pages.{panel_page}
use network_programming_nctu.Cgi.{
  Answer, parse_http_request, run_console_cgi, route, connect_to_url, do_read,
}

-- The path in front of the query leads to the console.
route-console : (env : Env) → program env ≡ codes "./console.cgi" → route env ≡ run_console_cgi env
unfolding route program same
route-console env e =
    ap
      (λ uri.
        if same uri (codes "/panel.cgi")
        then record { output = panel_page; started = [] }
        else if same uri (codes "/console.cgi")
        then run_console_cgi env
        else record { output = codes "NOT FOUND" ++ 0 ∷ []; started = [] })
      (ap (drop 1) e)

-- The panel's form, filled in and sent to "/console.cgi" with a request of 1,024 bytes at most: the server itself starts exactly the
-- sessions of the rows that have a host, a port and a file, in their order. The rows hold digits,
-- points and small letters.
pub form_starts_sessions :
    (method protocol name tail : Bytes) (rows : ℕ → Row)
    → IsFormRequest method (codes "/console.cgi") protocol name rows
    → length (form_request method (codes "/console.cgi") protocol name tail rows) ≤ 1024
    → (a : Answer) × (do_read (form_request method (codes "/console.cgi") protocol name tail rows)
        ≡ some a)
      × (a.started ≡ asked_from 5 0 rows)
unfolding do_read parse_http_request connect_to_url run_console_cgi
form_starts_sessions method protocol name tail rows f short = (
  connect_to_url env,
  ap (λ s. Option.map connect_to_url (parse_http_request s)) (take_short 1024 _ short)
      ∙ ap (λ r. Option.map connect_to_url (Option.map (λ host. parse_header host r.0) r.1))
          (split_request-request method path form protocol name tail valid),
  ap (λ (a : Answer). a.started) (route-console env parsed.1)
      ∙ ap (λ q. sessions (parse_query_string pattern_3 q)) parsed.0
      ∙ sessions-form rows f.filled,
)
  where
    path : Bytes
    path = codes "/console.cgi"

    form : Bytes
    form = form_text (fields_from 5 0 rows)

    env : Env
    env = parse_header name (request_line method path form protocol)

    valid : IsRequest method path form protocol name
    valid = form-IsRequest method path protocol name rows f

    parsed : (env.query_string ≡ form) × (program env ≡ codes "." ++ path)
    parsed = request_parsed method path form protocol name tail valid name
