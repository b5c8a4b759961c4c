-- ===== src/Rwg/Invariant/Lines.antt =====
-- The parse of a line keeps the invariant.
use network_programming_nctu.Base.{
  ℕ, suc, ◌-◌, ◌≡◌, refl, ap, ◌∙◌, Bool, true, false, not, ◌&&◌, ◌||◌, List, [], ◌∷◌, Bytes, ℤ,
  if◌then◌else◌, codes, same, length, ltb, arith,
}
use network_programming_nctu.Strings.{first_token, atoi}
use network_programming_nctu.Rwg.State.{
  World, M, ◌>>=◌, System, make_pipe, deref, require, overrun, pure, fail, null_pointer, piped,
}
use network_programming_nctu.Rwg.Users.{
  check_id_exist, check_name_pipe_exist, broadcast_msg, id_index, no_user_msg, no_pipe_msg,
  pipe_exists_msg, received_msg, fits,
}
use network_programming_nctu.Rwg.Users.Laws.{check_id_exist_sound}
use network_programming_nctu.Rwg.Pipes.{attach_pipe}
use network_programming_nctu.Rwg.Parse.{
  Locals, max_process_in_line, row_size, store_word, end_row, refuse, receive_pipe, take_user_pipe,
  redirect_to, shock_pipe, number_pipe, open_user_pipe, give_user_pipe, operator, parse_token,
  end_line, parse_tokens, parse_line, head_is, is_operator, keep_pipe, end_words,
}
use network_programming_nctu.Rwg.Invariant.{IsLive, Inv, IsActive}
use network_programming_nctu.Rwg.Invariant.Updates.{
  field_same, with_user, with_user-Inv, with_user-IsActive, with_record, clear_entry-Inv,
  set_entry-Inv,
}
use network_programming_nctu.Rwg.Invariant.Steps.{
  Keeps, logged-Inv, require-Keeps, deref-Keeps, then-Keeps, broadcast_msg-Keeps, attach_pipe-Keeps,
}

-- A choice keeps the invariant if both its branches do.
pub if-Keeps {ℓ} :
    {A : Type ℓ} (ui : ℕ) (b : Bool) (m n : M A) (w : World)
    → (b ≡ true → Keeps ui (m w))
    → (b ≡ false → Keeps ui (n w))
    → Keeps ui ((if b then m else n) w)
if-Keeps ui true m n w h k = h refl
if-Keeps ui false m n w h k = k refl

module _ (ui : ℕ) where
  store_word-Keeps :
      (t : Bytes) (l : Locals) (w : World) → Inv w → IsActive ui w → Keeps ui (store_word t l w)
  unfolding store_word
  store_word-Keeps t l w inv act =
      then-Keeps ui (require (ltb (length l.process) max_process_in_line) overrun) _ w
        (require-Keeps ui _ overrun w inv act)
        λ _ v iv av.
          then-Keeps ui (require (ltb (length l.row) row_size) overrun) _ v
            (require-Keeps ui _ overrun v iv av) λ _ u iu au. (iu, au)

  end_row-Keeps : (l : Locals) (w : World) → Inv w → IsActive ui w → Keeps ui (end_row l w)
  unfolding end_row
  end_row-Keeps l w inv act =
      then-Keeps ui (require (ltb (length l.process) max_process_in_line) overrun) _ w
        (require-Keeps ui _ overrun w inv act)
        λ _ v iv av.
          then-Keeps ui (require (ltb (length l.row) row_size) overrun) _ v
            (require-Keeps ui _ overrun v iv av) λ _ u iu au. (iu, au)

  refuse-Keeps :
      (msg : Bytes) (count : ℤ) (l : Locals) (w : World) → Inv w → Keeps ui (refuse msg count l w)
  unfolding refuse
  refuse-Keeps msg count l w inv = logged-Inv w _ refl refl inv

  receive_pipe-Keeps :
      (command : Bytes) (id : ℤ) (l : Locals) (w : World)
      → Inv w
      → IsActive ui w
      → Keeps ui (receive_pipe ui command id l w)
  unfolding receive_pipe
  receive_pipe-Keeps command id l w inv act =
      let msg = received_msg (w.users ui) (w.users (id_index id - 1)) (id_index id) command in
      then-Keeps ui (fits 300 msg) _ (with_record w (id_index id) (suc ui) false)
        (require-Keeps ui (ltb (length msg) 300) overrun _
          (clear_entry-Inv w (id_index id) (suc ui) inv) act)
        λ _ v iv av.
          then-Keeps ui (broadcast_msg msg) _ v (broadcast_msg-Keeps ui msg v iv av)
            λ _ u iu au. (iu, au)

  take_user_pipe-Keeps :
      (count : ℤ) (command t : Bytes) (l : Locals) (w : World)
      → Inv w
      → IsActive ui w
      → Keeps ui (take_user_pipe count ui command t l w)
  unfolding take_user_pipe
  take_user_pipe-Keeps count command t l w inv act =
      then-Keeps ui (deref (first_token b'<' t)) _ w (deref-Keeps ui _ w inv act) λ s v iv av.
        if-Keeps ui (not (check_id_exist v (atoi s))) _ _ v
          (λ _. refuse-Keeps (no_user_msg (atoi s)) count l v iv)
          (λ _.
            if-Keeps ui (check_name_pipe_exist v (id_index (atoi s)) (suc ui)) _ _ v
              (λ _. receive_pipe-Keeps command (atoi s) l v iv av)
              (λ _. refuse-Keeps (no_pipe_msg (id_index (atoi s)) (suc ui)) count l v iv))

  redirect_to-Keeps :
      (t : Bytes) (l : Locals) (w : World) → Inv w → IsActive ui w → Keeps ui (redirect_to t l w)
  unfolding redirect_to
  redirect_to-Keeps t l w inv act =
      then-Keeps ui (fits 100 t) _ w (require-Keeps ui (ltb (length t) 100) overrun w inv act)
        λ _ v iv av. (logged-Inv v _ refl refl iv, av)

  shock_pipe-Keeps :
      (sys : System) (t : Bytes) (l : Locals) (w : World)
      → Inv w
      → IsActive ui w
      → Keeps ui (shock_pipe sys ui t l w)
  unfolding shock_pipe
  shock_pipe-Keeps sys t l w inv act =
      then-Keeps ui (deref (first_token b'!' t)) _ w (deref-Keeps ui _ w inv act) λ s v iv av.
        then-Keeps ui (attach_pipe sys ui (atoi s)) _ v (attach_pipe-Keeps ui sys (atoi s) v iv av)
          λ _ u iu au. (iu, au)

  number_pipe-Keeps :
      (sys : System) (t : Bytes) (l : Locals) (w : World)
      → Inv w
      → IsActive ui w
      → Keeps ui (number_pipe sys ui t l w)
  unfolding number_pipe
  number_pipe-Keeps sys t l w inv act =
      then-Keeps ui (deref (first_token b'|' t)) _ w (deref-Keeps ui _ w inv act) λ s v iv av.
        then-Keeps ui (attach_pipe sys ui (atoi s)) _ v (attach_pipe-Keeps ui sys (atoi s) v iv av)
          λ _ u iu au. (iu, au)

  open_user_pipe-Keeps :
      (sys : System) (id : ℤ) (l : Locals) (w : World)
      → check_id_exist w id ≡ true
      → Inv w
      → IsActive ui w
      → Keeps ui (open_user_pipe sys ui id l w)
  unfolding open_user_pipe make_pipe
  open_user_pipe-Keeps sys id l w found inv act =
      let k = id_index id - 1 in
      let u = keep_pipe (w.users k) ui (sys.pipe_fds w.made) in
      let v = record w { made = suc w.made; trace = piped (sys.pipe_fds w.made) ∷ w.trace } in
      let iv = with_user-Inv v k u refl refl (inv.pipes k) (logged-Inv w v refl refl inv) in
      let av = with_user-IsActive v k u ui refl act in
      let (j, e, b, t) = check_id_exist_sound w id found in
      let there : IsLive (with_user v k u) (id_index id) =
        (j, ap id_index e, b, field_same (λ x. x.valid) v k u j refl ∙ t) in
      (set_entry-Inv (with_user v k u) (suc ui) (id_index id) (ui, refl, av.0, av.1) there iv, av)

  give_user_pipe-Keeps :
      (sys : System) (count : ℤ) (t : Bytes) (l : Locals) (w : World)
      → Inv w
      → IsActive ui w
      → Keeps ui (give_user_pipe sys count ui t l w)
  unfolding give_user_pipe
  give_user_pipe-Keeps sys count t l w inv act =
      then-Keeps ui (deref (first_token b'>' t)) _ w (deref-Keeps ui _ w inv act) λ s v iv av.
        if-Keeps ui (not (check_id_exist v (atoi s))) _ _ v
          (λ _. refuse-Keeps (no_user_msg (atoi s)) count l v iv)
          (λ known.
            if-Keeps ui (check_name_pipe_exist v (suc ui) (id_index (atoi s))) _ _ v
              (λ _. refuse-Keeps (pipe_exists_msg (suc ui) (id_index (atoi s))) count l v iv)
              (λ _. open_user_pipe-Keeps sys (atoi s) l v (ground arith) iv av))

  operator-Keeps :
      (sys : System) (count : ℤ) (t : Bytes) (l : Locals) (w : World)
      → Inv w
      → IsActive ui w
      → Keeps ui (operator sys count ui t l w)
  unfolding operator
  operator-Keeps sys count t l w inv act =
      if-Keeps ui (same t (codes "|")) (pure l) _ w (λ _. (inv, act))
        λ _.
          if-Keeps ui (same t (codes ">"))
            (pure (record l { write_file_flag = true; wants_file = true })) _ w (λ _. (inv, act))
            λ _.
              if-Keeps ui (head_is b'!' t) (shock_pipe sys ui t l) _ w
                (λ _. shock_pipe-Keeps sys t l w inv act)
                λ _.
                  if-Keeps ui (head_is b'|' t && ltb 1 (length t)) (number_pipe sys ui t l) _ w
                    (λ _. number_pipe-Keeps sys t l w inv act)
                    λ _.
                      if-Keeps ui (head_is b'>' t && ltb 1 (length t))
                        (give_user_pipe sys count ui t l) (pure l) w
                        (λ _. give_user_pipe-Keeps sys count t l w inv act) (λ _. (inv, act))

  parse_token-Keeps :
      (sys : System) (count : ℤ) (command t : Bytes) (l : Locals) (w : World)
      → Inv w
      → IsActive ui w
      → Keeps ui (parse_token sys count ui command t l w)
  unfolding parse_token
  parse_token-Keeps sys count command t l w inv act =
      if-Keeps ui l.wants_file (redirect_to t l) _ w (λ _. redirect_to-Keeps t l w inv act)
        λ _.
          if-Keeps ui (head_is b'<' t) (take_user_pipe count ui command t l) _ w
            (λ _. take_user_pipe-Keeps count command t l w inv act)
            λ _.
              if-Keeps ui (is_operator t) (end_row l >>= operator sys count ui t) (store_word t l) w
                (λ _.
                  then-Keeps ui (end_row l) (operator sys count ui t) w (end_row-Keeps l w inv act)
                    (λ m v iv av. operator-Keeps sys count t m v iv av))
                (λ _. store_word-Keeps t l w inv act)

  end_line-Keeps : (l : Locals) (w : World) → Inv w → IsActive ui w → Keeps ui (end_line l w)
  unfolding end_line
  end_line-Keeps l w inv act =
      if-Keeps ui l.wants_file (fail null_pointer) (end_words l.row l) w (λ _. tt) λ _. words l.row
    where
      words : (r : List Bytes) → Keeps ui (end_words r l w)
      words [] = (inv, act)
      words (t ∷ ts) = end_row-Keeps l w inv act

  parse_tokens-Keeps :
      (sys : System) (count : ℤ) (command : Bytes) (ts : List Bytes) (l : Locals) (w : World)
      → Inv w
      → IsActive ui w
      → Keeps ui (parse_tokens sys count ui command ts l w)
  unfolding parse_tokens
  parse_tokens-Keeps sys count command [] l w inv act = end_line-Keeps l w inv act
  parse_tokens-Keeps sys count command (t ∷ ts) l w inv act =
      then-Keeps ui (parse_token sys count ui command t l) (parse_tokens sys count ui command ts) w
        (parse_token-Keeps sys count command t l w inv act)
        λ m v iv av. parse_tokens-Keeps sys count command ts m v iv av

  -- Parsing a line keeps the invariant, also where the line is given up.
  pub parse_line-Keeps :
      (sys : System) (count : ℤ) (command : Bytes) (ts : List Bytes) (l : Locals) (w : World)
      → Inv w
      → IsActive ui w
      → Keeps ui (parse_line sys count ui command ts l w)
  unfolding parse_line
  parse_line-Keeps sys count command [] l w inv act = tt
  parse_line-Keeps sys count command (t ∷ ts) l w inv act =
      if-Keeps ui (same t (codes "tell") || same t (codes "yell"))
        (pure (record l { process = (t ∷ ts) ∷ [] })) (parse_tokens sys count ui command (t ∷ ts) l)
        w (λ _. (inv, act)) (λ _. parse_tokens-Keeps sys count command (t ∷ ts) l w inv act)
