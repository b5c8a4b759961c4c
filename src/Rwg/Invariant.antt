-- ===== src/Rwg/Invariant.antt =====
-- What holds of the server's state between any two statements.
pub mod Updates
pub mod Steps
pub mod Lines
pub mod Runs
pub mod Commands
pub mod Serving
pub mod Reachable
use network_programming_nctu.Base.{
  ℕ, suc, ◌<◌, ◌≡◌, ◌≢◌, ◌⊎◌, Bool, true, List, [], ◌∷◌, Bytes, All, ℤ,
}
use network_programming_nctu.Rwg.State.{NumberPipe, User, World, qlen}
use network_programming_nctu.Rwg.Users.{no_name}

-- `id` is the id of a row of `user` that is in use.
abbrev pub IsLive : World → ℕ → Type 0
IsLive w id = (k : ℕ) × (id ≡ suc k) × (k < qlen) × ((w.users k).valid ≡ true)

-- No two pipes of a user wait for the same line.
abbrev pub IsDistinct : List NumberPipe → Type 0
IsDistinct [] = Unit
IsDistinct (t ∷ ts) = All (λ s. t.rest_line ≢ s.rest_line) ts × IsDistinct ts

-- A recorded user pipe joins two users who are there; two users with one name have none; the number
-- pipes of a user are told apart by their counts.
pub record Inv (w : World) : Type 0 where
  pub live : (i j : ℕ) → w.name_pipe_record i j ≡ true → IsLive w i × IsLive w j
  pub names :
      (i j : ℕ)
      → i < qlen
      → j < qlen
      → (w.users i).valid ≡ true
      → (w.users j).valid ≡ true
      → (w.users i).name ≡ (w.users j).name
      → (i ≡ j) ⊎ ((w.users i).name ≡ no_name)
  pub pipes : (i : ℕ) → IsDistinct (w.users i).num_pipe_vec

-- The user whose line is read.
abbrev pub IsActive : ℕ → World → Type 0
IsActive ui w = (ui < qlen) × ((w.users ui).valid ≡ true)
