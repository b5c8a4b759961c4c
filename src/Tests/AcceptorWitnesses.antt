-- ===== src/Tests/AcceptorWitnesses.antt =====
-- The theorems on the parent and its children, at concrete inputs.
use network_programming_nctu.Base.{refl, true, []}
use network_programming_nctu.Acceptor.{
  wait_for_signal, do_accept, socks_server, parent, accept_handler, start_server, Server,
  accept_client, accepts, child_ends, first, Reach, begin, later,
}
use network_programming_nctu.Acceptor.Laws.{IsInOrder, GetsThrough, Reach-IsInOrder, zombies_end}

-- A client comes, and its child ends.
abbrev served : Server
served = record (accept_client socks_server true first) {
  children = [];
  zombies = 1;
  signalled = true;
  ended = 1;
}

served-Reach : Reach socks_server served
unfolding start_server do_accept wait_for_signal accept_handler parent
served-Reach = later (later begin (accepts true refl refl)) (child_ends [] _ [] refl)

Reach-IsInOrder_example : IsInOrder socks_server served
Reach-IsInOrder_example = Reach-IsInOrder socks_server served served-Reach

zombies_end_example : GetsThrough served
zombies_end_example = zombies_end socks_server served served-Reach
