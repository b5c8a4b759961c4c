-- ===== src/Tests/ConsoleWitnesses.antt =====
-- The consoles, the Windows server and the first shell, at concrete inputs.
use network_programming_nctu.Base.{false, if◌then◌else◌, length, ◌≤◌}
use network_programming_nctu.Base.{
  ℕ, zero, suc, ◌≡◌, refl, arith, true, List, [], ◌∷◌, ◌++◌, none, some, Bytes, codes, same, length,
}
use network_programming_nctu.Strings.{tokens, scan_tokens}
use network_programming_nctu.Statements.{next, fault, dangling}
use network_programming_nctu.Rwg.State.{get_env}
use network_programming_nctu.Http.{Connection, Cgi}
use network_programming_nctu.Http as Server
use network_programming_nctu.Console.{HostInfo, run_reads}
use network_programming_nctu.Console.Query.{
  is_value, pattern_3, Query, regex_search, search_loop, parse_query_string,
}
use network_programming_nctu.Console.Query.Laws.{search_loop_ends}
use network_programming_nctu.Console.Query.Form.{
  Field, form_text, assign_all, parse_query_string-form,
}
use network_programming_nctu.Console.Main.{main}
use network_programming_nctu.Console.Main.Laws.{
  Row, IsFilled, asked_from, form_request, IsFormRequest, panel_starts_sessions,
}
use network_programming_nctu.Cgi as Windows
use network_programming_nctu.Cgi.Laws.{form_starts_sessions}
use network_programming_nctu.Cgi.Sessions.{
  NpShellRun, Page, Completion, connects, answers, complete, serve,
}
use network_programming_nctu.Cgi.Sessions.Laws.{as_console, answers_of, sessions_agree}
use network_programming_nctu.Solo.State.{System}
use network_programming_nctu.Solo.Loop.{initial_shell}
use network_programming_nctu.Solo.Parse.{Line, initial_line}
use network_programming_nctu.Solo.PathArray.{PathShell, run_row, initial}
use network_programming_nctu.Solo.PathArray.Laws.{IsCommand, in_round, path_set, setenv_path_breaks}

abbrev text : Bytes
text = codes "x=1&h0=a.b&h0=c"

search_loop_ends_example :
    regex_search pattern_3 (search_loop pattern_3 (suc (length text)) (λ k. []) text).1 ≡ none
search_loop_ends_example =
    search_loop_ends pattern_3 (suc (length text)) (λ k. []) text (omega arith)

abbrev fields : List Field
fields =
    record { letter = b'h'; digit = b'0'; value = codes "np1.tw" }
    ∷ record { letter = b'p'; digit = b'0'; value = codes "7000" }
    ∷ record { letter = b'h'; digit = b'0'; value = [] }
    ∷ []

parse_query_string-form_example :
    parse_query_string pattern_3 (form_text fields) ≡ assign_all fields (λ k. [])
parse_query_string-form_example =
    parse_query_string-form pattern_3 fields
      (
        (refl, refl, (refl, (refl, (refl, (refl, (refl, (refl, tt))))))),
        ((refl, refl, (refl, (refl, (refl, (refl, tt))))), ((refl, refl, tt), tt)),
      )
      refl

-- The row 1 has no port and no file.
abbrev rows : ℕ → Row
rows zero = record { host = codes "np1"; port = codes "1"; file = codes "t1.txt" }
rows (suc zero) = record { host = codes "np2"; port = []; file = [] }
rows (suc (suc k)) = record { host = codes "np3"; port = codes "2"; file = codes "t2" }

rows-IsFilled : (j : ℕ) → IsFilled (rows j)
rows-IsFilled zero =
    ((refl, (refl, (refl, tt))), (refl, tt), (refl, (refl, (refl, (refl, (refl, (refl, tt)))))))
rows-IsFilled (suc zero) = ((refl, (refl, (refl, tt))), tt, tt)
rows-IsFilled (suc (suc k)) = ((refl, (refl, (refl, tt))), (refl, tt), (refl, (refl, tt)))

abbrev connection : Connection
connection = record {
  remote_addr = codes "1.2.3.4";
  remote_port = 5;
  server_addr = codes "1.2.3.5";
  server_port = 80;
}

rows-IsFormRequest :
    IsFormRequest (codes "GET") (codes "/console.cgi") (codes "HTTP/1.1\r") (codes "np:80\r") rows
rows-IsFormRequest = record {
  method_visible = omega arith;
  path_visible = omega arith;
  path_ends = ground arith;
  protocol_ends = ground arith;
  name_ends = ground arith;
  filled = rows-IsFilled;
}

request_short :
    length (
      form_request
        (codes "GET")
        (codes "/console.cgi")
        (codes "HTTP/1.1\r")
        (codes "np:80\r")
        []
        rows)
    ≤ 1024
request_short = omega arith

panel_starts_sessions_example :
    (cgi : Cgi) × (Server.do_read connection (
        form_request
          (codes "GET")
          (codes "/console.cgi")
          (codes "HTTP/1.1\r")
          (codes "np:80\r")
          []
          rows)
      ≡ some cgi)
    × (cgi.path ≡ codes "." ++ codes "/console.cgi")
    × ((main (get_env (codes "QUERY_STRING") cgi.environment)).started ≡ some (asked_from 5 0 rows))
panel_starts_sessions_example =
    panel_starts_sessions connection (codes "GET") (codes "/console.cgi") (codes "HTTP/1.1\r")
      (codes "np:80\r") [] rows rows-IsFormRequest request_short

form_starts_sessions_example :
    (a : Windows.Answer) × (Windows.do_read (
        form_request
          (codes "GET")
          (codes "/console.cgi")
          (codes "HTTP/1.1\r")
          (codes "np:80\r")
          []
          rows)
      ≡ some a)
    × (a.started ≡ asked_from 5 0 rows)
form_starts_sessions_example =
    form_starts_sessions (codes "GET") (codes "HTTP/1.1\r") (codes "np:80\r") [] rows
      rows-IsFormRequest request_short

abbrev info : HostInfo
info = record { id = codes "h0"; host = codes "a"; port = codes "1"; file = codes "t" }

started_lem : (main (some (codes "h0=a&p0=1&f0=t"))).started ≡ some (info ∷ [])
unfolding main parse_query_string search_loop regex_search
    network_programming_nctu.Console.Query.match_here
    network_programming_nctu.Console.Query.match_second
    network_programming_nctu.Console.Query.match_equals
    network_programming_nctu.Console.Query.value_run network_programming_nctu.Console.sessions
    network_programming_nctu.Console.sessions_from network_programming_nctu.Console.is_complete
    network_programming_nctu.Console.info_of network_programming_nctu.Console.key same
    network_programming_nctu.Strings.Decimal.decimal
started_lem = refl

abbrev running : NpShellRun
running = record { command = codes "ls" ∷ []; sent = [] }

abbrev page : Page
page = record {
  runs = λ id. if same id (codes "h0") then some running else none;
  inserts = [];
  writable = true;
}

there : page.runs (codes "h0") ≡ some running
unfolding same
there = refl

abbrev info1 : HostInfo
info1 = record { id = codes "h1"; host = codes "b"; port = codes "2"; file = codes "u" }

abbrev happening : List Completion
happening =
    connects info1 ∷ answers (codes "h1") (codes "hi") ∷ answers (codes "h0") (codes "%") ∷ []

abbrev no_lines : Bytes → List Bytes
no_lines name = []

served : (s : Page) × (serve no_lines happening page ≡ some s)
unfolding serve complete same
served = (_, refl)

h1-other : same (codes "h1") (codes "h0") ≡ false
unfolding same
h1-other = refl

sessions_agree_example :
    (run' : NpShellRun) × (served.0.runs (codes "h0") ≡ some run')
    × (as_console (codes "h0") run' served.0.inserts
        ≡ run_reads (answers_of (codes "h0") happening) (as_console (codes "h0") running []))
sessions_agree_example =
    sessions_agree no_lines (codes "h0") running page served.0 happening there
      (h1-other, (tt, (tt, tt))) served.1

abbrev system : System
system = record { pipe_fds = λ n. (n, suc n); content = λ _. none; leftover = [] }

abbrev shell : PathShell
shell = initial (initial_shell [] [])

abbrev line : Line
line = initial_line system

ls-IsCommand : IsCommand (codes "ls")
unfolding same
ls-IsCommand = (refl, refl, refl)

setenv_path_breaks_example :
    (run_row system
        (λ _. true)
        line
        1
        0
        (codes "setenv" ∷ codes "PATH" ∷ (codes "/bin" ++ b':' ∷ codes "a:b") ∷ [])
        0
        shell
      ≡ next 0
          (path_set (codes "/bin" ++ b':' ∷ codes "a:b") (codes "/bin" ∷ codes "a:b" ∷ []) shell))
    × (run_row system
          (λ _. true)
          line
          1
          0
          (codes "ls" ∷ [])
          0
          (in_round 1 shell.shell []
            (path_set (codes "/bin" ++ b':' ∷ codes "a:b") (codes "/bin" ∷ codes "a:b" ∷ []) shell))
        ≡ fault dangling)
unfolding initial
setenv_path_breaks_example =
    setenv_path_breaks system (λ _. true) line line 1 0 0 1 0 0 1 (codes "/bin") (codes "a:b") []
      shell shell.shell (codes "ls") [] (cc, ground arith) (cc, ground arith) ls-IsCommand
      (omega arith)
