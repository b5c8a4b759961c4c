-- ===== src/Multi/Client/Parse.antt =====
-- npshell's loop "combine token to process array". An operand that is refused sets `ignore`, and
-- the tokens behind it are taken all the same.
pub mod Laws
use network_programming_nctu.Base.{
  ℕ, suc, ◌-◌, Bool, true, false, not, ◌||◌, ◌&&◌, List, [], ◌∷◌, ◌++◌, Option, some, Bytes, codes,
  same, ℤ, if◌then◌else◌, length, ltb,
}
use network_programming_nctu.Strings.{first_token, atoi, overlay}
use network_programming_nctu.Strings.Decimal.{decimal}
use network_programming_nctu.Statements.{overrun, null_pointer}
use network_programming_nctu.Rwg.Users.{
  id_index, person, show_int, no_user_msg, no_pipe_msg, pipe_exists_msg,
}
use network_programming_nctu.Rwg.Parse.{head_is, is_operator, max_process_in_line, row_size}
use network_programming_nctu.Multi.Memory.{User, Memory, check_id_exist, check_name_pipe_exist}
use network_programming_nctu.Multi.Sections.{Section, broadcasting, taking, giving}
use network_programming_nctu.Multi.Program.{
  Program, file, printed, touched, ◌>>=◌, ◌>>◌, pure, get, put, see, section, emit, require, deref,
  fail,
}
use network_programming_nctu.Multi.Client.State.{Vars, System, Run, fits, attach_pipe}

unfoldable pub store_word : Bytes → Run (Unit {0})
store_word t = do
  v ← get
  require (ltb (length v.process) max_process_in_line) overrun
  require (ltb (length v.row) row_size) overrun
  put (record v { row = v.row ++ t ∷ [] })

unfoldable pub end_row : Run (Unit {0})
end_row = do
  v ← get
  require (ltb (length v.process) max_process_in_line) overrun
  require (ltb (length v.row) row_size) overrun
  put (record v { row = []; process = v.process ++ v.row ∷ [] })

-- `printf(…); ignore = 1;`
unfoldable pub refuse : Bytes → Run (Unit {0})
refuse msg = do emit (printed msg); v ← get; put (record v { ignore = true })

-- `user_pipe/FROM-TO`
unfoldable pub pipe_file : ℕ → ℕ → Bytes
pipe_file from to = codes "user_pipe/" ++ (decimal from ++ (codes "-" ++ decimal to))

unfoldable pub received_msg : User → User → ℤ → Bytes → Bytes
received_msg me sender id command =
    codes "*** "
    ++ (person me.name me.id
        ++ (codes " just received from "
            ++ (sender.name
                ++ (codes " (#"
                    ++ (show_int id ++ (codes ") by '" ++ (command ++ codes "' ***\n")))))))

-- The pipe exists: the record is cleared under the lock, the names are read after it.
unfoldable pub receive_pipe : ℕ → Bytes → ℤ → Run (Unit {0})
receive_pipe ui command id = do
  v ← get
  put (record v {
    name_pipe_in_flag = true;
    name_pipe_in_file = file (pipe_file (id_index id) (suc ui));
  })
  section (taking (id_index id) ui)
  m ← see
  let msg = received_msg (m.users ui) (m.users (id_index id - 1)) id command
  fits 300 msg
  section (broadcasting msg)

-- A token that begins with `<`.
unfoldable pub take_user_pipe : ℕ → Bytes → Bytes → Run (Unit {0})
take_user_pipe ui command t = do
  s ← deref (first_token b'<' t)
  let id = atoi s
  m ← see
  if not (check_id_exist m id) then refuse (no_user_msg id) else (do
    n ← see
    if check_name_pipe_exist n (id_index id) (suc ui)
        then receive_pipe ui command id
        else refuse (no_pipe_msg (id_index id) (suc ui)))

unfoldable pub redirect_to : Bytes → Run (Unit {0})
redirect_to t = do
  fits 100 t
  v ← get
  let name = overlay t v.redirection_file_name
  emit (touched name)
  put (record v { redirection_file_name = name; wants_file = false })

unfoldable pub shock_pipe : System → Bytes → Run (Unit {0})
shock_pipe sys t = do
  n ← deref (first_token b'!' t)
  out ← attach_pipe sys (atoi n)
  v ← get
  put (record v { line_end_with_pipe = true; pipe_out_num = out; shock_pipe_out_flag = true })

unfoldable pub number_pipe : System → Bytes → Run (Unit {0})
number_pipe sys t = do
  n ← deref (first_token b'|' t)
  out ← attach_pipe sys (atoi n)
  v ← get
  put (record v { line_end_with_pipe = true; pipe_out_num = out; num_pipe_out_flag = true })

-- The user exists and has no pipe from this one: the file is made, then the record is set under the
-- lock.
unfoldable pub open_user_pipe : ℕ → ℤ → Run (Unit {0})
open_user_pipe ui id = do
  emit (touched (pipe_file (suc ui) (id_index id)))
  section (giving (id_index id) ui)
  v ← get
  put (record v {
    name_pipe_out_flag = true;
    name_pipe_out_file = file (pipe_file (suc ui) (id_index id));
  })

unfoldable pub give_user_pipe : ℕ → Bytes → Run (Unit {0})
give_user_pipe ui t = do
  s ← deref (first_token b'>' t)
  let id = atoi s
  v ← get
  put (record v { name_pipe_out_id = some id })
  m ← see
  if not (check_id_exist m id) then refuse (no_user_msg id) else (do
    n ← see
    if check_name_pipe_exist n (suc ui) (id_index id)
        then refuse (pipe_exists_msg (suc ui) (id_index id))
        else open_user_pipe ui id)

unfoldable pub redirect : Run (Unit {0})
redirect = do v ← get; put (record v { write_file_flag = true; wants_file = true })

-- The token behind a row: `|`, `>`, `!N`, `|N` or `>N`.
unfoldable pub operator : System → ℕ → Bytes → Run (Unit {0})
operator sys ui t =
    if same t (codes "|")
    then pure tt
    else if same t (codes ">")
    then redirect
    else if head_is b'!' t
    then shock_pipe sys t
    else if head_is b'|' t && ltb 1 (length t)
    then number_pipe sys t
    else if head_is b'>' t && ltb 1 (length t)
    then give_user_pipe ui t
    else pure tt

unfoldable pub parse_token : System → ℕ → Bytes → Bytes → Run (Unit {0})
parse_token sys ui command t = do
  v ← get
  if v.wants_file
      then redirect_to t
      else if head_is b'<' t
      then take_user_pipe ui command t
      else if is_operator t
      then (end_row >> operator sys ui t)
      else store_word t

abbrev pub end_words : List Bytes → Run (Unit {0})
end_words [] = pure tt
end_words (t ∷ ts) = end_row

unfoldable pub end_line : Run (Unit {0})
end_line = do v ← get; if v.wants_file then fail null_pointer else end_words v.row

unfoldable pub parse_tokens : System → ℕ → Bytes → List Bytes → Run (Unit {0})
parse_tokens sys ui command [] = end_line
parse_tokens sys ui command (t ∷ ts) =
    parse_token sys ui command t >> parse_tokens sys ui command ts

unfoldable pub whole_row : List Bytes → Run (Unit {0})
whole_row ts = do v ← get; put (record v { process = ts ∷ [] })

unfoldable pub parse_line : System → ℕ → Bytes → List Bytes → Run (Unit {0})
parse_line sys ui command [] = fail null_pointer
parse_line sys ui command (t ∷ ts) =
    if same t (codes "tell") || same t (codes "yell")
    then whole_row (t ∷ ts)
    else parse_tokens sys ui command (t ∷ ts)
