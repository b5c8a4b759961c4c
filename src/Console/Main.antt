-- ===== src/Console/Main.antt =====
-- The functions `main` of the two consoles, nctu_np_project3/console.cpp and
-- nctu_np_project4/console.cpp, up to the connections that they start.
pub mod Laws
use network_programming_nctu.Base.{
  ℕ, zero, suc, Bool, true, false, List, [], ◌∷◌, ◌++◌, Option, none, some, Bytes, codes,
  if◌then◌else◌, map,
}
use network_programming_nctu.Console.{HostInfo, sessions, page_body}
use network_programming_nctu.Console.Query.{Query, pattern_3, pattern_4, parse_query_string}
use network_programming_nctu.Console.Connect.{Event, Completions, send_sock_request}

-- `cout << line << endl`, line by line.
unfoldable pub print_lines : List Bytes → Bytes
print_lines [] = []
print_lines (line ∷ lines) = line ++ (codes "\n" ++ print_lines lines)

-- The HTTP header and the head of the page.
unfoldable pub head_lines : List Bytes
head_lines =
    codes "Content-type: text/html"
    ∷ codes ""
    ∷ codes "<!DOCTYPE html>"
    ∷ codes "<html lang=\"en\"> "
    ∷ codes "<head> "
    ∷ codes "<meta charset=\"UTF-8\" /> "
    ∷ codes "<title>NP Project 3 Console</title> "
    ∷ codes "<link "
    ∷ codes "rel=\"stylesheet\" "
    ∷ codes "href=\"https://stackpath.bootstrapcdn.com/bootstrap/4.1.3/css/bootstrap.min.css\" "
    ∷ codes "integrity=\"sha384-MCw98/SFnGE8fJT3GXwEOngsV7Zt27NXFoaoApmYm81iuXoPkFOJwJ8ERdknLPMO\" "
    ∷ codes "crossorigin=\"anonymous\" "
    ∷ codes "/> "
    ∷ codes "<link "
    ∷ codes "href=\"https://fonts.googleapis.com/css?family=Source+Code+Pro\" "
    ∷ codes "rel=\"stylesheet\" "
    ∷ codes "/> "
    ∷ codes "<link "
    ∷ codes "rel=\"icon\" "
    ∷ codes "type=\"image/png\" "
    ∷ codes
        "href=\"https://cdn0.iconfinder.com/data/icons/small-n-flat/24/678068-terminal-512.png\" "
    ∷ codes "/> "
    ∷ codes "<style> "
    ∷ codes "  * { "
    ∷ codes "    font-family: 'Source Code Pro', monospace; "
    ∷ codes "    font-size: 1rem !important; "
    ∷ codes "  } "
    ∷ codes "  body { "
    ∷ codes "    background-color: #212529; "
    ∷ codes "  } "
    ∷ codes "  pre { "
    ∷ codes "    color: #cccccc; "
    ∷ codes "  } "
    ∷ codes "  b { "
    ∷ codes "    color: #ffffff; "
    ∷ codes "  } "
    ∷ codes "</style> "
    ∷ codes "</head> "
    ∷ []

-- What `main` writes to the standard output, and what it starts; `none` where the string that is
-- made of a NULL pointer throws.
pub record MainRun (A : Type 0) : Type 0 where
  pub output : Bytes
  pub started : Option A

-- `getenv("QUERY_STRING")` comes first here.
unfoldable pub main : Option Bytes → MainRun (List HostInfo)
main none = record { output = []; started = none }
main (some s) =
    let query = parse_query_string pattern_3 s in
    record { output = print_lines head_lines ++ page_body query; started = some (sessions query) }

-- A session with what its connection does, `none` for an exception, which the loop catches.
abbrev pub connect : (Bytes → Completions) → Query → HostInfo → HostInfo × Option (List Event)
connect c query info =
    (info, send_sock_request (c info.id) info (query (codes "sh")) (query (codes "sp")))

-- The console of project 4 asks for the query when the head is written. The calls of the session
-- with the id `id` complete as `c id` says.
unfoldable pub relayed_main :
    (Bytes → Completions) → Option Bytes → MainRun (List (HostInfo × Option (List Event)))
relayed_main c none = record {
  output =
      print_lines head_lines
      ++ codes "<body><table class=\"table table-dark table-bordered\"><thead><tr>";
  started = none;
}
relayed_main c (some s) =
    let query = parse_query_string pattern_4 s in
    record {
      output = print_lines head_lines ++ page_body query;
      started = some (map (connect c query) (sessions query));
    }
