-- ===== src/Console/Connect/Laws.antt =====
-- The console of project 4 and the SOCKS server, one against the other.
use mathlib.Core.Option
use network_programming_nctu.Base.{
  ℕ, ◌<◌, ◌≡◌, ◌↔◌, refl, sym, subst, ap, ◌∙◌, Bool, true, false, List, [], ◌∷◌, Option, none, some,
  Bytes, codes, same, if◌then◌else◌, not,
}
use network_programming_nctu.Strings.{atoi}
use network_programming_nctu.Strings.Decimal.{decimal}
use network_programming_nctu.Socks.Request.{
  SockRequest, parse_request, connect_request, dotted, echo_reply, reject_reply,
}
use network_programming_nctu.Socks.Request.Laws.{parse_request-connect_request}
use network_programming_nctu.Socks.Firewall.{Decision, accepted, denied, undefined, firewall}
use network_programming_nctu.Socks.Session.{
  Action, logs, sends, connects, listens, accepts, relays, Session, finished, no_meaning, Network,
  http_session, connect_session, accepted_session, decided, session,
}
use network_programming_nctu.Socks.Session.Laws.{HoldsReplies}
use network_programming_nctu.Console.{HostInfo, is_set}
use network_programming_nctu.Console.Connect as Client
use network_programming_nctu.Console.Connect.{
  Event, runs, Completions, port_number, is_granted, get_sock_reply, then_connected, ask_server,
  send_to, send_sock_request,
}

-- The first answer of a session.
abbrev pub first_sent : List Action → Option Bytes
first_sent [] = none
first_sent (sends b ∷ rest) = some b
first_sent (logs b ∷ rest) = first_sent rest
first_sent (connects ip port ∷ rest) = first_sent rest
first_sent (listens port ∷ rest) = first_sent rest
first_sent (accepts ∷ rest) = first_sent rest
first_sent (relays ∷ rest) = first_sent rest

abbrev pub answered : Session → Option Bytes
answered (finished acts) = first_sent acts
answered no_meaning = none

abbrev pub starts_run : List Event → Bool
starts_run [] = false
starts_run (runs info ∷ es) = true
starts_run (Client.connects h p ∷ es) = starts_run es
starts_run (Client.sends b ∷ es) = starts_run es
starts_run (Client.reports ∷ es) = starts_run es

-- The server reaches the address: it is not all zeros, it resolves, and a connection to it succeeds.
abbrev pub Reaches : Network → Bytes → Bytes → Type 0
Reaches net ip port =
    (same ip (codes "0.0.0.0") ≡ false) × (net.resolves ip ≡ true) × (net.reachable ip port ≡ true)

-- What http_session sends, by the outcomes of its steps.
granted_cases :
    (info : HostInfo) (ip port request reply : Bytes) (zeros resolved reached sent : Bool)
    → reply ≡ echo_reply 90 request
    → (starts_run (
          get_sock_reply info (
            first_sent (
              if zeros
              then []
              else if not resolved
              then []
              else if not reached
              then connects ip port ∷ []
              else connects ip port ∷ sends reply ∷ (if sent then relays ∷ [] else []))))
        ≡ true)
      ↔ ((zeros ≡ false) × (resolved ≡ true) × (reached ≡ true))
unfolding get_sock_reply is_granted echo_reply
granted_cases info ip port request reply true resolved reached sent h = (λ e. cc, λ (z, r, c). cc)
granted_cases info ip port request reply false false reached sent h = (λ e. cc, λ (z, r, c). cc)
granted_cases info ip port request reply false true false sent h = (λ e. cc, λ (z, r, c). cc)
granted_cases info ip port request reply false true true sent h =
    (λ e. (refl, refl, refl), λ (z, r, c). ap (λ b. starts_run (get_sock_reply info (some b))) h)

granted_iff :
    (info : HostInfo) (net : Network) (request : Bytes) (r : SockRequest) (d : Decision)
    → HoldsReplies net
    → r.cd ≡ codes "c"
    → (starts_run (get_sock_reply info (answered (decided net request r d))) ≡ true)
      ↔ ((d ≡ accepted) × Reaches net r.dst_ip r.dst_port)
unfolding get_sock_reply is_granted decided accepted_session connect_session http_session echo_reply
    reject_reply same
granted_iff info net request r accepted kept e =
    let (to, from) =
      granted_cases info r.dst_ip r.dst_port request (net.held 0 (echo_reply 90 request))
        (same r.dst_ip (codes "0.0.0.0")) (net.resolves r.dst_ip)
        (net.reachable r.dst_ip r.dst_port) net.send_ok (kept 0 _) in
    rw e (λ h. (refl, to h), λ (a, h). from h)
granted_iff info net request r denied kept e = (λ h. cc, λ (a, h). cc)
granted_iff info net request r undefined kept e = (λ h. cc, λ (a, h). cc)

-- The console's side, where each of its steps succeeds.
asked :
    (c : Completions) (info : HostInfo) (host port : Bytes) (x y z w : ℕ)
    → c.resolve info.host info.port ≡ some (x, y, z, w)
    → is_set host ≡ true
    → is_set port ≡ true
    → c.resolves host port ≡ true
    → c.reachable host port ≡ true
    → c.send_ok ≡ true
    → send_sock_request c info host port
      ≡ some (
          Client.connects host port
          ∷ Client.sends (connect_request (port_number (atoi info.port)) x y z w)
          ∷ get_sock_reply info c.reply)
unfolding send_sock_request send_to ask_server then_connected
asked c info host port x y z w e h p r q s =
    ap (Option.map (send_to c info host port)) e ∙ ap some (rw (h, p, r, q, s) refl)

-- The console of project 4 asks the SOCKS server, each step of the console succeeds, the port is
-- below 65,536 and the address is of four bytes, the memory of the server's reply, freed by then, still
-- holds it when it is sent, and the console reads what the server's session
-- sends first for its request: it starts a shell session exactly if the firewall accepts a CONNECT to
-- the address, and the address is not 0.0.0.0, resolves, and can be connected to at the port.
pub console_through_server :
    (c : Completions) (info : HostInfo) (host port : Bytes) (x y z w : ℕ) (net : Network)
    (conf : Option (List Bytes))
    → c.resolve info.host info.port ≡ some (x, y, z, w)
    → is_set host ≡ true
    → is_set port ≡ true
    → c.resolves host port ≡ true
    → c.reachable host port ≡ true
    → c.send_ok ≡ true
    → port_number (atoi info.port) < 65536
    → x < 256
    → y < 256
    → z < 256
    → w < 256
    → HoldsReplies net
    → c.reply ≡ answered (session net conf (connect_request (port_number (atoi info.port)) x y z w))
    → (es : List Event) × (send_sock_request c info host port ≡ some es)
      × ((starts_run es ≡ true) ↔ (
          (firewall conf (codes "c") (dotted x y z w) ≡ accepted)
          × Reaches net (dotted x y z w) (decimal (port_number (atoi info.port)))))
unfolding session
console_through_server c info host port x y z w net conf e h p r q s n a b g k kept reply = (
  _,
  asked c info host port x y z w e h p r q s,
  subst
      (λ o. (starts_run (get_sock_reply info o) ≡ true) ↔ (
        (firewall conf (codes "c") (dotted x y z w) ≡ accepted)
        × Reaches net (dotted x y z w) (decimal (port_number (atoi info.port)))))
      (sym reply)
      (subst
        (λ v.
          (starts_run (get_sock_reply info (answered (session net conf request))) ≡ true)
          ↔ ((firewall conf v.cd v.dst_ip ≡ accepted) × Reaches net v.dst_ip v.dst_port))
        parsed
        (granted_iff info net request (parse_request request) _ kept (ap (λ v. v.cd) parsed))),
)
  where
    request : Bytes
    request = connect_request (port_number (atoi info.port)) x y z w

    parsed : parse_request request ≡ record {
      vn = codes "4";
      cd = codes "c";
      dst_port = decimal (port_number (atoi info.port));
      dst_ip = dotted x y z w;
    }
    parsed = parse_request-connect_request (port_number (atoi info.port)) x y z w n a b g k
