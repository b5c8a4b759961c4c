-- ===== src/Http/Laws.antt =====
-- What the parser makes of a request that is well formed.
use mathlib.Core.Option
use network_programming_nctu.Base.{
  ℕ, zero, suc, ◌≤◌, ◌≡◌, ◌≢◌, refl, ap, ◌∙◌, [], ◌∷◌, ◌++◌, All, Option, none, some, Bytes, codes,
  length, take, drop, arith, All-append, All-mono, ◌<◌, same, codes,
}
use network_programming_nctu.Rwg.State.{get_env}
use network_programming_nctu.Http.{
  find, prefix, after, query_of, Env, parse_header, with_host, split_request, parse_http_request,
  substr_from, program, Connection, Cgi, set_env, connect_to_url, do_read,
}

-- A text without the character `c`.
abbrev pub Lacks : ℕ → Bytes → Type 0
Lacks c s = All (λ b. b ≢ c) s

find-Lacks : (c : ℕ) (w s : Bytes) → Lacks c w → find c (w ++ c ∷ s) ≡ some (length w)
unfolding find
find-Lacks c [] s h = ground arith
find-Lacks c (b ∷ w) s (p, h) = ground (arith, find-Lacks c w s h)

find-none : (c : ℕ) (w : Bytes) → Lacks c w → find c w ≡ none
unfolding find
find-none c [] h = refl
find-none c (b ∷ w) (p, h) = ground (arith, find-none c w h)

take-append : (w s : Bytes) → take (length w) (w ++ s) ≡ w
take-append [] s = refl
take-append (b ∷ w) s = ap (◌∷◌ b) (take-append w s)

drop-append : (w : Bytes) (c : ℕ) (s : Bytes) → drop (suc (length w)) (w ++ c ∷ s) ≡ s
drop-append [] c s = refl
drop-append (b ∷ w) c s = drop-append w c s

rest_of : Bytes → Option ℕ → Bytes
rest_of uri none = []
rest_of uri (some n) = drop (suc n) uri

query_of_lem : (path query : Bytes) → Lacks b'?' path → query_of (path ++ b'?' ∷ query) ≡ query
unfolding query_of rest_of
query_of_lem path query h =
    ap (rest_of (path ++ b'?' ∷ query)) (find-Lacks b'?' path query h) ∙ drop-append path b'?' query

pub take_short : (n : ℕ) (s : Bytes) → length s ≤ n → take n s ≡ s
take_short zero [] h = refl
take_short zero (c ∷ s) h = absurd (omega arith)
take_short (suc n) [] h = refl
take_short (suc n) (c ∷ s) h = ap (◌∷◌ c) (take_short n s (omega arith))

-- The request line "method path?query protocol", its words without spaces and its path without `?`,
-- is taken apart into them, and the program that is run is the path, from the current directory.
pub parse_header_lem :
    (host method path query protocol : Bytes)
    → Lacks 32 method
    → Lacks 32 (path ++ b'?' ∷ query)
    → Lacks b'?' path
    → (parse_header host (method ++ 32 ∷ ((path ++ b'?' ∷ query) ++ 32 ∷ protocol)) ≡ record {
      http_host = host;
      request_method = method;
      request_uri = path ++ b'?' ∷ query;
      query_string = query;
      server_protocol = protocol;
    })
      × (program (parse_header host (method ++ 32 ∷ ((path ++ b'?' ∷ query) ++ 32 ∷ protocol)))
          ≡ codes "." ++ path)
unfolding parse_header program
parse_header_lem host method path query protocol hm hu hp =
    rw
      (
        find-Lacks 32 method ((path ++ b'?' ∷ query) ++ 32 ∷ protocol) hm,
        take-append method (32 ∷ ((path ++ b'?' ∷ query) ++ 32 ∷ protocol)),
        drop-append method 32 ((path ++ b'?' ∷ query) ++ 32 ∷ protocol),
        find-Lacks 32 (path ++ b'?' ∷ query) protocol hu,
        take-append (path ++ b'?' ∷ query) (32 ∷ protocol),
        drop-append (path ++ b'?' ∷ query) 32 protocol,
        find-Lacks b'?' path query hp,
        take-append path (b'?' ∷ query),
        query_of_lem path query hp,
      )
      (refl, refl)

substr_from-host : (name : Bytes) → substr_from 6 (codes "Host: " ++ name) ≡ some name
unfolding substr_from
substr_from-host name = ground arith

find_host : (s : Bytes) → find 32 (codes "Host: " ++ s) ≡ some 5
unfolding find
find_host s = refl

split_request-lines :
    (header line tail : Bytes)
    → Lacks 10 header
    → Lacks 10 line
    → split_request (header ++ 10 ∷ (line ++ 10 ∷ tail))
      ≡ (header, substr_from (after (find 32 (line ++ 10 ∷ tail))) line)
unfolding split_request
split_request-lines header line tail h k =
    rw
      (
        find-Lacks 10 header (line ++ 10 ∷ tail) h,
        take-append header (10 ∷ (line ++ 10 ∷ tail)),
        drop-append header 10 (line ++ 10 ∷ tail),
        find-Lacks 10 line tail k,
        take-append line (10 ∷ tail),
      )
      refl

-- A request line, a line with the host, and whatever follows.
split_request_lem :
    (header name tail : Bytes)
    → Lacks 10 header
    → Lacks 10 name
    → split_request (header ++ 10 ∷ ((codes "Host: " ++ name) ++ 10 ∷ tail)) ≡ (header, some name)
split_request_lem header name tail h k =
    split_request-lines header (codes "Host: " ++ name) tail h
      (All-append (λ b. b ≢ 10) (codes "Host: ") name (omega arith) k)
    ∙ ap (λ o. (header, substr_from (after o) (codes "Host: " ++ name)))
        (find_host (name ++ 10 ∷ tail))
    ∙ ap (λ o. (header, o)) (substr_from-host name)

abbrev pub IsVisible : ℕ → Type 0
IsVisible c = 32 < c

Lacks-space : (s : Bytes) → All IsVisible s → Lacks 32 s
Lacks-space = All-mono (λ c h. ground arith)

-- "method path?query protocol"
abbrev pub request_line : Bytes → Bytes → Bytes → Bytes → Bytes
request_line method path query protocol = method ++ 32 ∷ ((path ++ b'?' ∷ query) ++ 32 ∷ protocol)

-- The request line, the line of the host, and whatever follows.
abbrev pub request : Bytes → Bytes → Bytes → Bytes → Bytes → Bytes → Bytes
request method path query protocol name tail =
    request_line method path query protocol ++ 10 ∷ ((codes "Host: " ++ name) ++ 10 ∷ tail)

-- A request whose words are words.
pub record IsRequest (method path query protocol name : Bytes) : Type 0 where
  pub method_visible : All IsVisible method
  pub path_visible : All IsVisible path
  pub query_visible : All IsVisible query
  pub path_ends : Lacks b'?' path
  pub protocol_ends : Lacks 10 protocol
  pub name_ends : Lacks 10 name

module _ (method path query protocol name tail : Bytes)
    (valid : IsRequest method path query protocol name) where
  uri : All IsVisible (path ++ b'?' ∷ query)
  uri =
      All-append IsVisible path (b'?' ∷ query) valid.path_visible (omega arith, valid.query_visible)

  no_newline : (s : Bytes) → All IsVisible s → Lacks 10 s
  no_newline = All-mono (λ b h. ground arith)

  request_line-Lacks : Lacks 10 (request_line method path query protocol)
  request_line-Lacks =
      All-append (λ b. b ≢ 10) method (32 ∷ ((path ++ b'?' ∷ query) ++ 32 ∷ protocol))
        (no_newline method valid.method_visible)
        (
          omega arith,
          All-append (λ b. b ≢ 10) (path ++ b'?' ∷ query) (32 ∷ protocol)
              (no_newline (path ++ b'?' ∷ query) uri) (omega arith, valid.protocol_ends),
        )

  pub split_request-request :
      split_request (request method path query protocol name tail)
      ≡ (request_line method path query protocol, some name)
  split_request-request =
      split_request_lem (request_line method path query protocol) name tail request_line-Lacks
        valid.name_ends

  -- The path and the query of the request, as the server has them.
  pub request_parsed :
      (host : Bytes)
      → ((parse_header host (request_line method path query protocol)).query_string ≡ query)
        × (program (parse_header host (request_line method path query protocol))
            ≡ codes "." ++ path)
  request_parsed host =
      let parsed =
        parse_header_lem host method path query protocol (Lacks-space method valid.method_visible)
          (Lacks-space (path ++ b'?' ∷ query) uri) valid.path_ends in
      (ap (λ (e : Env). e.query_string) parsed.0, parsed.1)

  -- The path's program is run, and finds the query in its environment.
  pub do_read_lem :
      (c : Connection)
      → length (request method path query protocol name tail) ≤ 1024
      → (cgi : Cgi) × (do_read c (request method path query protocol name tail) ≡ some cgi)
        × (cgi.path ≡ codes "." ++ path)
        × (get_env (codes "QUERY_STRING") cgi.environment ≡ some query)
  unfolding do_read parse_http_request connect_to_url set_env get_env same
  do_read_lem c short =
      let host = prefix (find b':' name) name in
      (
        connect_to_url c (parse_header host (request_line method path query protocol)),
        ap (λ s. Option.map (connect_to_url c) (parse_http_request s)) (take_short 1024 _ short)
            ∙ ap (λ r. Option.map (connect_to_url c) (with_host r.0 r.1)) split_request-request,
        (request_parsed host).1,
        ap some (request_parsed host).0,
      )
