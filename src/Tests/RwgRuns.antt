-- ===== src/Tests/RwgRuns.antt =====
-- Runs of the server at concrete inputs.
use network_programming_nctu.Base.{ℕ, ◌+◌, ◌*◌, List, [], ◌∷◌, ◌++◌, codes, Bytes, none, pos}
use network_programming_nctu.Rwg.State.{System, Event}
use network_programming_nctu.Rwg.Server.{Served, serving, broken, Arrival, connects, delivers}

-- The n-th pipe gets the descriptors 100 + 2 n and 101 + 2 n.
abbrev pub sys : System
sys = record { pipe_fds = λ n. (100 + 2 * n, 101 + 2 * n); batch_lines = λ _. none }

abbrev pub types : ℕ → Bytes → Arrival
types fd line = delivers fd (pos 1) (line ++ codes "\r\n")

abbrev trace_of : Served → List Event
trace_of (serving s) = s.world.trace
trace_of (broken e) = []

abbrev pub two_users : List Arrival
two_users = connects 5 (codes "10.0.0.1") 1000 ∷ connects 6 (codes "10.0.0.2") 1001 ∷ []

-- A number pipe, a pipeline behind it that goes to a user pipe, and the other user's read of it.
abbrev pub traffic : List Arrival
traffic =
    two_users
    ++ (types 5 (codes "ls |2")
        ∷ types 5 (codes "cat a | number >2")
        ∷ types 5 (codes "cat")
        ∷ types 6 (codes "cat <1")
        ∷ [])
