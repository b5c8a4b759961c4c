-- ===== src/Cgi.antt =====
-- The Windows server, nctu_np_project3/windows_cgi_server/main.cpp: HttpServer. It answers a request
-- itself, with the panel or with the page of the console, and runs the console's sessions.
pub mod Pages
pub mod Sessions
pub mod Laws
use mathlib.Core.Option
use network_programming_nctu.Base.{
  List, [], ◌∷◌, ◌++◌, Option, none, some, Bytes, codes, same, take, if◌then◌else◌,
}
use network_programming_nctu.Http.{find, prefix, Env, parse_header, split_request}
use network_programming_nctu.Console.{HostInfo, sessions}
use network_programming_nctu.Console.Query.{pattern_3, parse_query_string}
use network_programming_nctu.Cgi.Pages.{joined, panel_page, console_header, console_body}

-- parseHttpRequest; the host keeps its port here.
unfoldable pub parse_http_request : Bytes → Option Env
parse_http_request req =
    Option.map (λ host. parse_header host (split_request req).0) (split_request req).1

-- What a request brings about: the bytes that the client gets, and the sessions that are started.
pub record Answer : Type 0 where
  pub output : Bytes
  pub started : List HostInfo

abbrev pub reply_line : Bytes
reply_line = codes "HTTP/1.1 200 OK\r\nContent-type: text/html\r\n\r\n\n"

unfoldable pub run_console_cgi : Env → Answer
run_console_cgi env =
    let query = parse_query_string pattern_3 env.query_string in
    record { output = joined console_header ++ console_body query; started = sessions query }

-- `buffer("NOT FOUND")` is an array of ten characters, the last one NUL.
unfoldable pub route : Env → Answer
route env =
    let uri = prefix (find b'?' env.request_uri) env.request_uri in
    if same uri (codes "/panel.cgi")
    then record { output = panel_page; started = [] }
    else if same uri (codes "/console.cgi")
    then run_console_cgi env
    else record { output = codes "NOT FOUND" ++ 0 ∷ []; started = [] }

abbrev pub replied : Answer → Answer
replied a = record a { output = reply_line ++ a.output }

unfoldable pub connect_to_url : Env → Answer
connect_to_url env = replied (route env)

-- The handler of a read that succeeds, which takes the whole of _data[1024]: the first 1,024 bytes of
-- what came, and of what the array held behind them. `none`: substr throws.
unfoldable pub do_read : Bytes → Option Answer
do_read received = Option.map connect_to_url (parse_http_request (take 1024 received))
