-- ===== src/Socks/Session/Laws.antt =====
-- What a session does only for requests that the firewall accepts.
use network_programming_nctu.Base.{ℕ, ◌≡◌, true, false, List, [], Bytes, codes, ◌⊎◌}
use network_programming_nctu.Socks.Request.{SockRequest, echo_reply, bind_reply}
use network_programming_nctu.Socks.Firewall.{Decision, accepted, denied}
use network_programming_nctu.Socks.Session.{
  Action, logs, sends, connects, listens, accepts, relays, Session, finished, no_meaning, Network,
}

-- The memory of the replies is not used again before they are sent.
abbrev pub HoldsReplies : Network → Type 0
HoldsReplies net = (n : ℕ) (b : Bytes) → net.held n b ≡ b

module _ (net : Network) (request : Bytes) (r : SockRequest) (d : Decision) where
  abbrev pub IsConnect : Type 0
  IsConnect = (d ≡ accepted) × (r.cd ≡ codes "c")

  abbrev pub IsBind : Type 0
  IsBind = (d ≡ accepted) × (r.cd ≡ codes "b")

  -- The ground on which each action is taken.
  abbrev pub Allowed : Action → Type 0
  Allowed (logs shown) = (d ≡ accepted) × (shown ≡ true) ⊎ (d ≡ denied) × (shown ≡ false)
  Allowed (sends reply) =
      (IsConnect × (reply ≡ echo_reply 90 request))
      ⊎ ((IsBind × (reply ≡ bind_reply net.bound_port))
          ⊎ ((d ≡ denied) × (reply ≡ echo_reply 91 request)))
  Allowed (connects ip port) = IsConnect × (ip ≡ r.dst_ip) × (port ≡ r.dst_port)
  Allowed (listens port) = IsBind × (port ≡ net.bound_port)
  Allowed accepts = IsBind
  Allowed relays = IsConnect ⊎ IsBind

actions_of : Session → List Action
actions_of (finished acts) = acts
actions_of no_meaning = []
