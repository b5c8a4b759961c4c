-- ===== src/Rwg/Pipes/Attach.antt =====
-- From `|N` to the line that reads its pipe.
use network_programming_nctu.Base.{
  ℕ, suc, ◌≡◌, refl, ap, ◌∙◌, true, inl, inr, none, some, Option-cases, List, [], ◌∷◌, ◌++◌, ℤ, pos,
  ◌==ℤ◌, ==ℤ_iff, ==_iff, if◌then◌else◌, arith,
}
use network_programming_nctu.Rwg.State.{NumberPipe, World, System, dup_to, fd, next, make_pipe}
use network_programming_nctu.Rwg.Pipes.{find_pipe, decrease, add_pipe, attach_to, attach_pipe}
use network_programming_nctu.Rwg.Pipes.Laws.{lines_later, number_pipe_lem}
use network_programming_nctu.Rwg.Children.{dup_dead_pipe}
use network_programming_nctu.Rwg.Children.Laws.{dup_dead_pipe_lem}

find_pipe-append :
    (n : ℤ) (ts : List NumberPipe) (t : NumberPipe)
    → find_pipe n ts ≡ none
    → (n ==ℤ t.rest_line) ≡ true
    → find_pipe n (ts ++ t ∷ []) ≡ some t
unfolding find_pipe
find_pipe-append n [] t h e = rw e refl
find_pipe-append n (x ∷ ts) t h e = ground (arith, find_pipe-append n ts t)

-- What is written to goes to the pipe for this line.
abbrev IsAttached : System → ℕ → ℤ → World → Type 0
IsAttached sys ui n w =
    (out : ℕ) × (w' : World) × (t : NumberPipe) × (attach_pipe sys ui n w ≡ next out w')
    × (find_pipe n (w'.users ui).num_pipe_vec ≡ some t)
    × (out ≡ t.write_end)

attach_pipe-IsAttached : (sys : System) (ui : ℕ) (n : ℤ) (w : World) → IsAttached sys ui n w
unfolding attach_pipe attach_to add_pipe make_pipe
attach_pipe-IsAttached sys ui n w = elim (Option-cases (find_pipe n (w.users ui).num_pipe_vec)) [
  | inl e ↦
      let made : NumberPipe = record {
        rest_line = n;
        read_end = (sys.pipe_fds w.made).0;
        write_end = (sys.pipe_fds w.made).1;
      } in
      (
        made.write_end,
        _,
        made,
        ap (λ o. attach_to sys ui n o w) e,
        ap
              (λ c.
                find_pipe n
                  (if c
                    then record (w.users ui) {
                      num_pipe_vec = (w.users ui).num_pipe_vec ++ made ∷ [];
                    }
                    else w.users ui).num_pipe_vec)
              ((==_iff ui ui).1 refl)
            ∙ find_pipe-append n (w.users ui).num_pipe_vec made e ((==ℤ_iff n n).1 refl),
        refl,
      )
  | inr (t, e) ↦ (t.write_end, w, t, ap (λ o. attach_to sys ui n o w) e, e, refl)
]

-- `|N`, N at least 1, of a user: the descriptor that its process writes to is the write end of one of
-- the user's pipes. If the lines between attach and read no pipe, then at the start of the N-th line
-- after it num_pipe_in_flag is set, and a process of that line that looks for a pipe reads the read
-- end of the same pipe.
pub attach_pipe_lem :
    (sys : System) (ui n : ℕ) (w : World)
    → (out : ℕ) × (w' : World) × (t : NumberPipe) × (attach_pipe sys ui (pos (suc n)) w
        ≡ next out w')
      × (find_pipe (pos (suc n)) (w'.users ui).num_pipe_vec ≡ some t)
      × (out ≡ t.write_end)
      × (dup_dead_pipe (lines_later (suc n) (w'.users ui).num_pipe_vec)
          ≡ dup_to (fd t.read_end) 0 ∷ [])
      × ((decrease (lines_later n (w'.users ui).num_pipe_vec)).1 ≡ true)
attach_pipe_lem sys ui n w =
    let (out, w', t, runs, found, ends) = attach_pipe-IsAttached sys ui (pos (suc n)) w in
    let ((s, hit, same_read, _), flag) = number_pipe_lem n (w'.users ui).num_pipe_vec t found in
    (
      out,
      w',
      t,
      runs,
      found,
      ends,
      dup_dead_pipe_lem (lines_later (suc n) (w'.users ui).num_pipe_vec) s hit
          ∙ ap (λ a. dup_to (fd a) 0 ∷ []) same_read,
      flag,
    )
