-- ===== src/Http.antt =====
-- The HTTP server: nctu_np_project3/http_server.cpp.
pub mod Laws
use mathlib.Core.Option
use network_programming_nctu.Strings.Decimal.{decimal}
use network_programming_nctu.Base.{
  ℕ, zero, suc, ◌+◌, Bool, true, false, List, [], ◌∷◌, ◌++◌, Option, none, some, Bytes, codes, leb,
  ◌==◌, if◌then◌else◌, length, take, drop,
}

abbrev pub later : Option ℕ → Option ℕ
later none = none
later (some n) = some (suc n)

-- `s.find(c)`; `none` is npos.
unfoldable pub find : ℕ → Bytes → Option ℕ
find c [] = none
find c (b ∷ s) = if b == c then some 0 else later (find c s)

-- `s.substr(0, pos)`
abbrev pub prefix : Option ℕ → Bytes → Bytes
prefix none s = s
prefix (some n) s = take n s

-- `npos + 1` is 0.
abbrev pub after : Option ℕ → ℕ
after none = 0
after (some n) = suc n

-- `s.substr(pos, …)` to the end, `none` for the exception where `pos` lies behind the end.
unfoldable pub substr_from : ℕ → Bytes → Option Bytes
substr_from pos s = if leb pos (length s) then some (drop pos s) else none

-- The entries of the map _env that the parser sets.
pub record Env : Type 0 where
  pub http_host : Bytes
  pub request_method : Bytes
  pub request_uri : Bytes
  pub query_string : Bytes
  pub server_protocol : Bytes

unfoldable pub query_of : Bytes → Bytes
query_of uri = elim (find b'?' uri) [ none ↦ [] | some n ↦ drop (suc n) uri ]

-- The request line.
unfoldable pub parse_header : Bytes → Bytes → Env
parse_header host header =
    let rest = drop (after (find 32 header)) header in
    let uri = prefix (find 32 rest) rest in
    record {
      http_host = host;
      request_method = prefix (find 32 header) header;
      request_uri = uri;
      query_string = query_of uri;
      server_protocol = drop (after (find 32 rest)) rest;
    }

-- The host without its port, and the rest of the map.
abbrev pub with_host : Bytes → Option Bytes → Option Env
with_host header none = none
with_host header (some host) = some (parse_header (prefix (find b':' host) host) header)

-- The request line, and what the host line has behind the first space of the whole rest of the
-- request; `none`: substr throws.
unfoldable pub split_request : Bytes → Bytes × Option Bytes
split_request req =
    let rest = drop (after (find 10 req)) req in
    (prefix (find 10 req) req, substr_from (after (find 32 rest)) (prefix (find 10 rest) rest))

-- parseHttpRequest; `none`: the exception comes up in a handler that nothing guards.
unfoldable pub parse_http_request : Bytes → Option Env
parse_http_request req = with_host (split_request req).0 (split_request req).1

-- The program that is run: "." and the path in front of the query.
unfoldable pub program : Env → Bytes
program env = codes "." ++ prefix (find b'?' env.request_uri) env.request_uri

-- What the constructor of HttpServer keeps of the connection.
pub record Connection : Type 0 where
  pub remote_addr : Bytes
  pub remote_port : ℕ
  pub server_addr : Bytes
  pub server_port : ℕ

-- setEnv: the environment that the program is run in.
unfoldable pub set_env : Env → Connection → List (Bytes × Bytes)
set_env env c =
    (codes "REQUEST_METHOD", env.request_method)
    ∷ (codes "REQUEST_URI", env.request_uri)
    ∷ (codes "QUERY_STRING", env.query_string)
    ∷ (codes "SERVER_PROTOCOL", env.server_protocol)
    ∷ (codes "HTTP_HOST", env.http_host)
    ∷ (codes "SERVER_ADDR", c.server_addr)
    ∷ (codes "SERVER_PORT", decimal c.server_port)
    ∷ (codes "REMOTE_ADDR", c.remote_addr)
    ∷ (codes "REMOTE_PORT", decimal c.remote_port)
    ∷ []

-- What is sent to the client, and the program that takes the server's place, with its environment.
pub record Cgi : Type 0 where
  pub reply : Bytes
  pub path : Bytes
  pub environment : List (Bytes × Bytes)

unfoldable pub connect_to_url : Connection → Env → Cgi
connect_to_url c env = record {
  reply = codes "HTTP/1.1 200 OK\r\n";
  path = program env;
  environment = set_env env c;
}

-- The handler of a read that succeeds, which takes the whole of _data[1024], whatever the read's
-- length: the first 1,024 bytes of what came, and of what the array held behind them.
unfoldable pub do_read : Connection → Bytes → Option Cgi
do_read c received = Option.map (connect_to_url c) (parse_http_request (take 1024 received))
