-- ===== src/Socks/Session.antt =====
-- SockSession from the read of the request on, with what HttpSession and BindSession do up to the
-- relay.
pub mod Laws
use network_programming_nctu.Base.{
  ℕ, Bool, true, false, List, [], ◌∷◌, ◌++◌, Option, none, some, Bytes, codes, same, if◌then◌else◌,
  not,
}
use network_programming_nctu.Socks.Request.{
  SockRequest, parse_request, echo_reply, reject_reply, bind_reply,
}
use network_programming_nctu.Socks.Firewall.{Decision, accepted, denied, undefined, firewall}

-- The text that is printed for a request; `source_ip` and `source_port` are the client's.
unfoldable pub show_host_sock_info : Bytes → Bytes → SockRequest → Bool → Bytes
show_host_sock_info source_ip source_port r result =
    codes "<S_IP>:\t"
    ++ (source_ip
        ++ (codes "\n<S_PORT>:\t"
            ++ (source_port
                ++ (codes "\n<D_IP>:\t"
                    ++ (r.dst_ip
                        ++ (codes "\n<D_PORT>:\t"
                            ++ (r.dst_port ++ (codes "\n" ++ (shown_command ++ shown_reply)))))))))
  where
    shown_command : Bytes
    shown_command =
        if same r.cd (codes "c")
        then codes "<Command>:\tCONNECT\n"
        else if same r.cd (codes "b")
        then codes "<Command>:\tBIND\n"
        else []

    shown_reply : Bytes
    shown_reply = if result then codes "<Reply>:\tAccept\n\n" else codes "<Reply>:\tReject\n\n"

-- What a session does with the network, in order.
pub data Action : Type 0 where
  -- `show_host_sock_info`, with whether "Accept" is shown
  logs : Bool → Action
  sends : Bytes → Action
  connects : (ip port : Bytes) → Action
  -- open, bind, listen on a port that the system chooses
  listens : ℕ → Action
  accepts : Action
  relays : Action

pub data Session : Type 0 where
  -- the actions, and the session goes no further
  finished : List Action → Session
  -- firewall read behind the end of a vector
  no_meaning : Session

-- What the environment answers: the completions of async_resolve, async_connect, async_send and
-- async_accept, and the port that the acceptor is bound to.
pub record Network : Type 0 where
  pub resolves : Bytes → Bool
  pub reachable : Bytes → Bytes → Bool
  pub send_ok : Bool
  pub accept_ok : Bool
  pub second_send_ok : Bool
  pub bound_port : ℕ
  -- HttpSession and BindSession keep a pointer to the array _reply of a SockSession, which nothing keeps
  -- alive: what that memory holds when it is sent for the n-th time, after these bytes were put in
  pub held : ℕ → Bytes → Bytes

-- HttpSession: do_connect and socks_reply.
unfoldable pub http_session : Network → Bytes → Bytes → Bytes → List Action
http_session net ip port reply =
    if not (net.resolves ip)
    then []
    else if not (net.reachable ip port)
    then connects ip port ∷ []
    else connects ip port ∷ sends (net.held 0 reply) ∷ (if net.send_ok then relays ∷ [] else [])

-- BindSession: do_connect, do_reply and do_accept.
unfoldable pub bind_session : Network → List Action
bind_session net =
    let reply = bind_reply net.bound_port in
    let started = if net.second_send_ok then relays ∷ [] else [] in
    let then_accept =
      accepts ∷ (if net.accept_ok then sends (net.held 1 reply) ∷ started else []) in
    listens net.bound_port ∷ sends (net.held 0 reply) ∷ (if net.send_ok then then_accept else [])

-- doConnectSession: an address of zeros is left without an answer.
unfoldable pub connect_session : Network → Bytes → SockRequest → List Action
connect_session net request r =
    if same r.dst_ip (codes "0.0.0.0")
    then []
    else http_session net r.dst_ip r.dst_port (echo_reply 90 request)

unfoldable pub accepted_session : Network → Bytes → SockRequest → List Action
accepted_session net request r =
    if same r.cd (codes "c")
    then connect_session net request r
    else if same r.cd (codes "b")
    then bind_session net
    else []

unfoldable pub decided : Network → Bytes → SockRequest → Decision → Session
decided net request r accepted = finished (logs true ∷ accepted_session net request r)
decided net request r denied = finished (logs false ∷ sends (reject_reply request) ∷ [])
decided net request r undefined = no_meaning

-- The handler of the first read.
unfoldable pub session : Network → Option (List Bytes) → Bytes → Session
session net conf request =
    let r = parse_request request in decided net request r (firewall conf r.cd r.dst_ip)
