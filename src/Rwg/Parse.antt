-- ===== src/Rwg/Parse.antt =====
-- npshell's loop "combine token to process array". The token index of the source is the list of
-- the tokens that are left, and the row of `process` that is being filled is `row`: the source
-- stands at the head of its outer loop when `row` is empty.
pub mod Laws
use network_programming_nctu.Base.{
  ℕ, suc, ◌-◌, Bool, true, false, not, ◌||◌, ◌&&◌, List, [], ◌∷◌, ◌++◌, Option, Bytes, codes, same,
  ℤ, ◌==◌, if◌then◌else◌, length, ltb,
}
use network_programming_nctu.Strings.{first_token, atoi, overlay}
use network_programming_nctu.Rwg.State.{
  User, World, Event, printed, touched, M, ◌>>=◌, ◌>>◌, pure, return, get, emit, deref, require,
  fail, overrun, null_pointer, set_user, set_record, System, make_pipe,
}
use network_programming_nctu.Rwg.Users.{
  check_id_exist, check_name_pipe_exist, broadcast_msg, id_index, fits, no_user_msg, no_pipe_msg,
  pipe_exists_msg, received_msg,
}
use network_programming_nctu.Rwg.Pipes.{attach_pipe}

-- npshell's variables. `process` holds the rows that are complete, its length is process_count;
-- `wants_file` says that the next token is the operand of `>`.
pub record Locals : Type 0 where
  pub num_pipe_in_flag : Bool
  pub num_pipe_out_flag : Bool
  pub shock_pipe_out_flag : Bool
  pub write_file_flag : Bool
  pub line_end_with_pipe : Bool
  pub name_pipe_out_flag : Bool
  pub name_pipe_in_flag : Bool
  pub pipe_out_num : ℕ
  pub redirection_file_name : Bytes
  pub name_pipe_sender_id : ℤ
  pub name_pipe_out_id : ℤ
  pub row : List Bytes
  pub process : List (List Bytes)
  pub wants_file : Bool

abbrev pub max_process_in_line : ℕ
max_process_in_line = 5000

abbrev pub row_size : ℕ
row_size = 10

abbrev pub head_is : ℕ → Bytes → Bool
head_is c [] = false
head_is c (b ∷ s) = b == c

-- `process[process_count][j] = token[i]`, where j is the length of `row`.
unfoldable pub store_word : Bytes → Locals → M Locals
store_word t l = do
  require (ltb (length l.process) max_process_in_line) overrun
  require (ltb (length l.row) row_size) overrun
  pure (record l { row = l.row ++ t ∷ [] })

-- `process[process_count][j] = NULL`, and process_count grows.
unfoldable pub end_row : Locals → M Locals
end_row l = do
  require (ltb (length l.process) max_process_in_line) overrun
  require (ltb (length l.row) row_size) overrun
  pure (record l { row = []; process = l.process ++ l.row ∷ [] })

-- `printf(…); return count;`
unfoldable pub refuse : Bytes → ℤ → Locals → M Locals
refuse msg count l = do emit (printed msg); return count

-- The user exists and the pipe does too.
unfoldable pub receive_pipe : ℕ → Bytes → ℤ → Locals → M Locals
receive_pipe ui command id l = do
  set_record (id_index id) (suc ui) false
  w ← get
  let msg = received_msg (w.users ui) (w.users (id_index id - 1)) (id_index id) command
  fits 300 msg
  broadcast_msg msg
  pure (record l { name_pipe_sender_id = id; name_pipe_in_flag = true })

-- A token that begins with `<`.
unfoldable pub take_user_pipe : ℤ → ℕ → Bytes → Bytes → Locals → M Locals
take_user_pipe count ui command t l = do
  s ← deref (first_token b'<' t)
  w ← get
  let id = atoi s
  if not (check_id_exist w id)
      then refuse (no_user_msg id) count l
      else if check_name_pipe_exist w (id_index id) (suc ui)
      then receive_pipe ui command id l
      else refuse (no_pipe_msg (id_index id) (suc ui)) count l

-- `>`: the operand is the next token.
unfoldable pub redirect_to : Bytes → Locals → M Locals
redirect_to t l = do
  fits 100 t
  let name = overlay t l.redirection_file_name
  emit (touched name)
  pure (record l { redirection_file_name = name; wants_file = false })

-- `!N` and `|N`.
unfoldable pub shock_pipe : System → ℕ → Bytes → Locals → M Locals
shock_pipe sys ui t l = do
  s ← deref (first_token b'!' t)
  out ← attach_pipe sys ui (atoi s)
  pure (record l { line_end_with_pipe = true; pipe_out_num = out; shock_pipe_out_flag = true })

unfoldable pub number_pipe : System → ℕ → Bytes → Locals → M Locals
number_pipe sys ui t l = do
  s ← deref (first_token b'|' t)
  out ← attach_pipe sys ui (atoi s)
  pure (record l { line_end_with_pipe = true; pipe_out_num = out; num_pipe_out_flag = true })

-- `pipe(receiver.name_pipe[sender])`
abbrev pub keep_pipe : User → ℕ → ℕ × ℕ → User
keep_pipe receiver sender p = record receiver {
  name_pipe = λ j. if j == sender then p else receiver.name_pipe j;
}

-- `>N` where the user exists and has no pipe from this one: the receiver's row keeps the pipe, by
-- the sender's index.
unfoldable pub open_user_pipe : System → ℕ → ℤ → Locals → M Locals
open_user_pipe sys ui id l = do
  p ← make_pipe sys
  w ← get
  set_user (id_index id - 1) (keep_pipe (w.users (id_index id - 1)) ui p)
  set_record (suc ui) (id_index id) true
  pure (record l { name_pipe_out_flag = true; name_pipe_out_id = id })

unfoldable pub give_user_pipe : System → ℤ → ℕ → Bytes → Locals → M Locals
give_user_pipe sys count ui t l = do
  s ← deref (first_token b'>' t)
  w ← get
  let id = atoi s
  if not (check_id_exist w id)
      then refuse (no_user_msg id) count l
      else if check_name_pipe_exist w (suc ui) (id_index id)
      then refuse (pipe_exists_msg (suc ui) (id_index id)) count l
      else open_user_pipe sys ui id l

-- The token behind a row: `|`, `>`, `!N`, `|N` or `>N`.
unfoldable pub operator : System → ℤ → ℕ → Bytes → Locals → M Locals
operator sys count ui t l =
    if same t (codes "|")
    then pure l
    else if same t (codes ">")
    then pure (record l { write_file_flag = true; wants_file = true })
    else if head_is b'!' t
    then shock_pipe sys ui t l
    else if head_is b'|' t && ltb 1 (length t)
    then number_pipe sys ui t l
    else if head_is b'>' t && ltb 1 (length t)
    then give_user_pipe sys count ui t l
    else pure l

abbrev pub is_operator : Bytes → Bool
is_operator t = head_is b'>' t || (head_is b'|' t || head_is b'!' t)

unfoldable pub parse_token : System → ℤ → ℕ → Bytes → Bytes → Locals → M Locals
parse_token sys count ui command t l =
    if l.wants_file
    then redirect_to t l
    else if head_is b'<' t
    then take_user_pipe count ui command t l
    else if is_operator t
    then (end_row l >>= operator sys count ui t)
    else store_word t l

abbrev pub end_words : List Bytes → Locals → M Locals
end_words [] l = pure l
end_words (t ∷ ts) l = end_row l

-- token[i] is NULL: a row that holds a word is complete, and one that does not is none.
unfoldable pub end_line : Locals → M Locals
end_line l = if l.wants_file then fail null_pointer else end_words l.row l

unfoldable pub parse_tokens : System → ℤ → ℕ → Bytes → List Bytes → Locals → M Locals
parse_tokens sys count ui command [] l = end_line l
parse_tokens sys count ui command (t ∷ ts) l =
    parse_token sys count ui command t l >>= parse_tokens sys count ui command ts

-- The whole loop. The line of a `tell` or a `yell` is one row, whatever its tokens; as the only
-- row it may run on through the 50,000 cells of `process`.
unfoldable pub parse_line : System → ℤ → ℕ → Bytes → List Bytes → Locals → M Locals
parse_line sys count ui command [] l = fail null_pointer
parse_line sys count ui command (t ∷ ts) l =
    if same t (codes "tell") || same t (codes "yell")
    then pure (record l { process = (t ∷ ts) ∷ [] })
    else parse_tokens sys count ui command (t ∷ ts) l
