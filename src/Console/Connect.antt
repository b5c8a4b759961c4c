-- ===== src/Console/Connect.antt =====
-- NpShellConnect of nctu_np_project4/console.cpp: the console that reaches a shell through a SOCKS
-- server, or without one where the query names none.
pub mod Laws
use mathlib.Core.Option
use network_programming_nctu.Base.{
  ℕ, Bool, true, false, ◌&&◌, List, [], ◌∷◌, ◌++◌, Option, none, some, Bytes, ◌==◌, if◌then◌else◌,
  get_elem?, ℤ, pos, negsuc,
}
use network_programming_nctu.Strings.{atoi}
use network_programming_nctu.Socks.Request.{connect_request}
use network_programming_nctu.Console.{HostInfo, is_set}

-- What a connection does, in order.
pub data Event : Type 0 where
  -- `async_connect` to what this host and port resolve to
  connects : (host port : Bytes) → Event
  sends : Bytes → Event
  -- "ERROR: …" or "Accept error: …"
  reports : Event
  -- `make_shared<NpShellRun>(…)->start()`
  runs : HostInfo → Event

-- What the environment answers: the address that `resolve` gives at once, `none` where it throws;
-- the completions of async_resolve, async_connect and async_send; and what the first read gives.
pub record Completions : Type 0 where
  pub resolve : Bytes → Bytes → Option (ℕ × ℕ × ℕ × ℕ)
  pub resolves : Bytes → Bytes → Bool
  pub reachable : Bytes → Bytes → Bool
  pub send_ok : Bool
  pub reply : Option Bytes

-- The number that atoi reads of a port; the characters that a query's values are made of have no
-- sign.
abbrev pub port_number : ℤ → ℕ
port_number (pos n) = n
port_number (negsuc n) = 0

-- `_reply[1] == 90`; an answer of less than two bytes leaves the array unset, and is taken for a
-- refusal.
unfoldable pub is_granted : Bytes → Bool
is_granted reply = elim (get_elem? reply 1) [ none ↦ false | some code ↦ code == 90 ]

unfoldable pub get_sock_reply : HostInfo → Option Bytes → List Event
get_sock_reply info none = []
get_sock_reply info (some reply) = if is_granted reply then runs info ∷ [] else []

-- async_resolve and async_connect, with what follows them.
unfoldable pub then_connected : Completions → Bytes → Bytes → List Event → List Event
then_connected c host port rest =
    if c.resolves host port
    then connects host port ∷ (if c.reachable host port then rest else reports ∷ [])
    else reports ∷ []

unfoldable pub ask_server : Completions → HostInfo → Bytes → Bytes → Bytes → List Event
ask_server c info host port request =
    then_connected c host port
      (sends request ∷ (if c.send_ok then get_sock_reply info c.reply else reports ∷ []))

-- send_sock_request behind its `resolve`; `host` and `port` are those of the SOCKS server.
unfoldable pub send_to : Completions → HostInfo → Bytes → Bytes → ℕ × ℕ × ℕ × ℕ → List Event
send_to c info host port (x, y, z, w) =
    if is_set host && is_set port
    then ask_server c info host port (connect_request (port_number (atoi info.port)) x y z w)
    else then_connected c info.host info.port (runs info ∷ [])

-- `none`: an exception, which main catches.
unfoldable pub send_sock_request : Completions → HostInfo → Bytes → Bytes → Option (List Event)
send_sock_request c info host port =
    Option.map (send_to c info host port) (c.resolve info.host info.port)
