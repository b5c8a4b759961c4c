-- ===== src/Multi/Client/Parse/Laws.antt =====
-- The sections that the parsing of a line enters.
use network_programming_nctu.Base.{
  ℕ, suc, ◌<◌, ◌≤◌, ◌≡◌, refl, Bool, true, false, not, ◌&&◌, List, [], ◌∷◌, Bytes, ℤ, pos, negsuc,
  pred_int, ◌==ℤ◌, ==ℤ_iff, arith, Option, none, some, first_from, first_from_hit, Option-cases,
  inl, inr, zero,
}
use network_programming_nctu.Rwg.State.{NumberPipe}
use network_programming_nctu.Rwg.Users.{id_index}
use network_programming_nctu.Multi.Memory.{qlen, Memory, check_id_exist}
use network_programming_nctu.Multi.Sections.{
  Section, accepting, noting_pid, broadcasting, telling, taking, giving, leaving,
}
use network_programming_nctu.Multi.Program.{section}
use network_programming_nctu.Multi.Program.Laws.{
  Brings, Any, Keeps, keeps_rules, Keeps-section, Keeps-bind,
}
use network_programming_nctu.Multi.Client.State.{
  Vars, System, Run, attach_pipe, attach_to, add_pipe, make_pipe, decrease_pipes, start_line,
}
use network_programming_nctu.Multi.Client.Parse.{
  store_word, end_row, refuse, receive_pipe, take_user_pipe, redirect_to, shock_pipe, number_pipe,
  open_user_pipe, give_user_pipe, redirect, operator, parse_token, end_line, end_words,
  parse_tokens, whole_row, parse_line,
}

-- What the process of the user with index `ui` may do under the lock: a message, to all or to the
-- row of an id; a record of a pipe from or to itself; and its own leaving.
abbrev pub IsAllowed : ℕ → Section → Type 0
IsAllowed ui (accepting sock addr port) = ⊥
IsAllowed ui (noting_pid i pid) = ⊥
IsAllowed ui (broadcasting msg) = Unit {0}
IsAllowed ui (telling target msg) = target < qlen
IsAllowed ui (taking sender u) = (u ≡ ui) × (1 ≤ sender) × (sender ≤ qlen)
IsAllowed ui (giving receiver u) = (u ≡ ui) × (1 ≤ receiver) × (receiver ≤ qlen)
IsAllowed ui (leaving u) = u ≡ ui

-- The row that is renamed without the lock is the user's own.
abbrev pub IsOwn : ℕ → ℕ → Type 0
IsOwn ui i = i ≡ ui

abbrev pub Behaves : {A : Type 0} → ℕ → Run A → Type 0
Behaves ui m = Keeps (IsAllowed ui) (IsOwn ui) Any m

found_range :
    (k : ℕ) (id : ℤ) → pos k ≡ pred_int id → k < qlen → (1 ≤ id_index id) × (id_index id ≤ qlen)
unfolding pred_int
found_range k (pos zero) e h = cc
found_range k (pos (suc n)) e h = (omega arith, ground arith)
found_range k (negsuc n) e h = cc

-- No line is to be ignored.
abbrev pub IsCalm : Vars → Type 0
IsCalm v = v.ignore ≡ false

-- The same, and a line that is run leaves `ignore` as it is.
abbrev pub StaysCalm : {A : Type 0} → ℕ → Run A → Type 0
StaysCalm ui m = Keeps (IsAllowed ui) (IsOwn ui) IsCalm m

-- With these variables, it ends with `ignore` clear.
abbrev pub EndsCalm : {A : Type 0} → ℕ → Vars → Run A → Type 0
EndsCalm ui v m = Brings (IsAllowed ui) (IsOwn ui) IsCalm v m

-- An id that was found is one of 1 to 30.
pub check_id_exist-range :
    (m : Memory) (id : ℤ) → check_id_exist m id ≡ true → (1 ≤ id_index id) × (id_index id ≤ qlen)
unfolding check_id_exist
check_id_exist-range m id h = elim (Option-cases (first_from qlen 0 found)) [
  | inl e ↦ cc (rw e at h)
  | inr (k, e) ↦
      let (hit, low, high) = first_from_hit qlen 0 found k e in
      found_range k id ((==ℤ_iff (pos k) (pred_int id)).0 (ground (arith, hit))) high
]
  where
    found : ℕ → Bool
    found i = (m.users i).valid && (pos i ==ℤ pred_int id)

not-false : (b : Bool) → not b ≡ false → b ≡ true
not-false true h = refl
not-false false h = cc

module _ (ui : ℕ) where
  store_word-Behaves : (t : Bytes) → Behaves ui (store_word t)
  unfolding store_word
  store_word-Behaves t = search keeps_rules

  end_row-Behaves : Behaves ui end_row
  unfolding end_row
  end_row-Behaves = search keeps_rules

  refuse-Behaves : (msg : Bytes) → Behaves ui (refuse msg)
  unfolding refuse
  refuse-Behaves msg = search keeps_rules

  redirect_to-Behaves : (t : Bytes) → Behaves ui (redirect_to t)
  unfolding redirect_to
  redirect_to-Behaves t = search keeps_rules

  pub make_pipe-Behaves : (sys : System) → Behaves ui (make_pipe sys)
  unfolding make_pipe
  make_pipe-Behaves sys = search keeps_rules

  add_pipe-Behaves : (sys : System) (n : ℤ) → Behaves ui (add_pipe sys n)
  unfolding add_pipe
  add_pipe-Behaves sys n = search (keeps_rules, make_pipe-Behaves) depth 12

  attach_to-Behaves :
      (sys : System) (n : ℤ) (o : Option NumberPipe) → Behaves ui (attach_to sys n o)
  unfolding attach_to
  attach_to-Behaves sys n none = add_pipe-Behaves sys n
  attach_to-Behaves sys n (some t) = search keeps_rules

  attach_pipe-Behaves : (sys : System) (n : ℤ) → Behaves ui (attach_pipe sys n)
  unfolding attach_pipe
  attach_pipe-Behaves sys n = search (keeps_rules, attach_to-Behaves) depth 12

  shock_pipe-Behaves : (sys : System) (t : Bytes) → Behaves ui (shock_pipe sys t)
  unfolding shock_pipe
  shock_pipe-Behaves sys t = search (keeps_rules, attach_pipe-Behaves) depth 12

  number_pipe-Behaves : (sys : System) (t : Bytes) → Behaves ui (number_pipe sys t)
  unfolding number_pipe
  number_pipe-Behaves sys t = search (keeps_rules, attach_pipe-Behaves) depth 12

  taking-Behaves :
      (id : ℤ)
      → (1 ≤ id_index id) × (id_index id ≤ qlen)
      → Behaves ui (section (taking (id_index id) ui))
  taking-Behaves id (low, high) = Keeps-section _ (refl, low, high)

  giving-Behaves :
      (id : ℤ)
      → (1 ≤ id_index id) × (id_index id ≤ qlen)
      → Behaves ui (section (giving (id_index id) ui))
  giving-Behaves id (low, high) = Keeps-section _ (refl, low, high)

  pub broadcasting-Behaves : (msg : Bytes) → Behaves ui (section (broadcasting msg))
  broadcasting-Behaves msg = Keeps-section _ tt

  receive_pipe-Behaves :
      (command : Bytes) (id : ℤ)
      → (1 ≤ id_index id) × (id_index id ≤ qlen)
      → Behaves ui (receive_pipe ui command id)
  unfolding receive_pipe
  receive_pipe-Behaves command id h =
      search (keeps_rules, taking-Behaves, broadcasting-Behaves) depth 12

  open_user_pipe-Behaves :
      (id : ℤ) → (1 ≤ id_index id) × (id_index id ≤ qlen) → Behaves ui (open_user_pipe ui id)
  unfolding open_user_pipe
  open_user_pipe-Behaves id h = search (keeps_rules, giving-Behaves) depth 12

  receive_found-Behaves :
      (command : Bytes) (m : Memory) (id : ℤ)
      → not (check_id_exist m id) ≡ false
      → Behaves ui (receive_pipe ui command id)
  receive_found-Behaves command m id h =
      receive_pipe-Behaves command id (check_id_exist-range m id (not-false _ h))

  open_found-Behaves :
      (m : Memory) (id : ℤ) → not (check_id_exist m id) ≡ false → Behaves ui (open_user_pipe ui id)
  open_found-Behaves m id h = open_user_pipe-Behaves id (check_id_exist-range m id (not-false _ h))

  take_user_pipe-Behaves : (command t : Bytes) → Behaves ui (take_user_pipe ui command t)
  unfolding take_user_pipe
  take_user_pipe-Behaves command t =
      search (keeps_rules, refuse-Behaves, receive_found-Behaves) depth 12

  give_user_pipe-Behaves : (t : Bytes) → Behaves ui (give_user_pipe ui t)
  unfolding give_user_pipe
  give_user_pipe-Behaves t = search (keeps_rules, refuse-Behaves, open_found-Behaves) depth 12

  redirect-Behaves : Behaves ui redirect
  unfolding redirect
  redirect-Behaves = search keeps_rules

  operator-Behaves : (sys : System) (t : Bytes) → Behaves ui (operator sys ui t)
  unfolding operator
  operator-Behaves sys t =
      search
        (
          keeps_rules, redirect-Behaves, shock_pipe-Behaves, number_pipe-Behaves,
          give_user_pipe-Behaves,
        )
        depth 12

  parse_token-Behaves :
      (sys : System) (command t : Bytes) → Behaves ui (parse_token sys ui command t)
  unfolding parse_token
  parse_token-Behaves sys command t =
      search
        (
          keeps_rules, redirect_to-Behaves, take_user_pipe-Behaves, end_row-Behaves,
          operator-Behaves, store_word-Behaves,
        )
        depth 12

  end_words-Behaves : (ts : List Bytes) → Behaves ui (end_words ts)
  end_words-Behaves [] = search keeps_rules
  end_words-Behaves (t ∷ ts) = end_row-Behaves

  end_line-Behaves : Behaves ui end_line
  unfolding end_line
  end_line-Behaves = search (keeps_rules, end_words-Behaves) depth 12

  parse_tokens-Behaves :
      (sys : System) (command : Bytes) (ts : List Bytes)
      → Behaves ui (parse_tokens sys ui command ts)
  unfolding parse_tokens
  parse_tokens-Behaves sys command [] = end_line-Behaves
  parse_tokens-Behaves sys command (t ∷ ts) =
      Keeps-bind _ _ (parse_token-Behaves sys command t) (λ _. parse_tokens-Behaves sys command ts)

  whole_row-Behaves : (ts : List Bytes) → Behaves ui (whole_row ts)
  unfolding whole_row
  whole_row-Behaves ts = search keeps_rules

  pub parse_line-Behaves :
      (sys : System) (command : Bytes) (ts : List Bytes) → Behaves ui (parse_line sys ui command ts)
  unfolding parse_line
  parse_line-Behaves sys command [] = search keeps_rules
  parse_line-Behaves sys command (t ∷ ts) =
      search (keeps_rules, whole_row-Behaves, parse_tokens-Behaves) depth 12

  pub decrease_pipes-Behaves : (ts : List Bytes) → Behaves ui (decrease_pipes ts)
  unfolding decrease_pipes
  decrease_pipes-Behaves [] = search keeps_rules
  decrease_pipes-Behaves (t ∷ ts) = search keeps_rules

  pub start_line-Behaves : Behaves ui start_line
  unfolding start_line
  start_line-Behaves = search keeps_rules
