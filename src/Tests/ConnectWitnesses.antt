-- ===== src/Tests/ConnectWitnesses.antt =====
-- The console of project 4 and the SOCKS server, at concrete inputs.
use network_programming_nctu.Base.{
  ◌<◌, ◌≡◌, ◌↔◌, refl, true, List, [], ◌∷◌, Bytes, codes, Option, some, arith,
}
use network_programming_nctu.Strings.{atoi}
use network_programming_nctu.Strings.Decimal.{decimal}
use network_programming_nctu.Socks.Request.{connect_request, dotted}
use network_programming_nctu.Socks.Firewall.{accepted, firewall}
use network_programming_nctu.Socks.Session.{Network, session}
use network_programming_nctu.Console.{HostInfo}
use network_programming_nctu.Console.Connect
use network_programming_nctu.Console.Connect.{Completions, port_number, send_sock_request}
use network_programming_nctu.Console.Connect.Laws.{
  answered, starts_run, Reaches, console_through_server,
}

abbrev info : HostInfo
info = record { id = codes "h0"; host = codes "shell"; port = codes "7000"; file = codes "t1.txt" }

abbrev network : Network
network = record {
  resolves = λ _. true;
  reachable = λ _ _. true;
  send_ok = true;
  accept_ok = true;
  second_send_ok = true;
  bound_port = 9000;
  held = λ _ b. b;
}

abbrev rules : Option (List Bytes)
rules = some (codes "permit c 10.0.0.*" ∷ [])

abbrev completions : Completions
completions = record {
  resolve = λ _ _. some (10, 0, 0, 1);
  resolves = λ _ _. true;
  reachable = λ _ _. true;
  send_ok = true;
  reply =
      answered (session network rules (connect_request (port_number (atoi info.port)) 10 0 0 1));
}

port_in_range : port_number (atoi info.port) < 65536
unfolding atoi
port_in_range = omega arith

console_through_server_example :
    (es : List Connect.Event) × (send_sock_request completions info (codes "socks") (codes "1080")
      ≡ some es)
    × ((starts_run es ≡ true) ↔ (
        (firewall rules (codes "c") (dotted 10 0 0 1) ≡ accepted)
        × Reaches network (dotted 10 0 0 1) (decimal (port_number (atoi info.port)))))
console_through_server_example =
    console_through_server completions info (codes "socks") (codes "1080") 10 0 0 1 network rules
      refl refl refl refl refl refl port_in_range (omega arith) (omega arith) (omega arith)
      (omega arith) (λ n b. refl) refl
