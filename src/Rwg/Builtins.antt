-- ===== src/Rwg/Builtins.antt =====
-- The commands that npshell runs itself.
pub mod Laws
use network_programming_nctu.Base.{
  ℕ, zero, suc, ◌-◌, Bool, false, ◌&&◌, ◌||◌, pos, List, [], ◌∷◌, ◌++◌, Option, none, some, Bytes,
  codes, ◌==◌, if◌then◌else◌, get_elem?, drop, leb,
}
use network_programming_nctu.Strings.{atoi}
use network_programming_nctu.Strings.Decimal.{decimal}
use network_programming_nctu.Rwg.State.{
  User, wrote, printed, M, ◌>>=◌, ◌>>◌, pure, return, get, put, emit, deref, require, overrun,
  set_user, set_env, get_env, System, qlen,
}
use network_programming_nctu.Rwg.Users.{
  check_id_exist, check_name_exist, broadcast_msg, id_index, fits, no_name, no_user_msg,
}

unfoldable pub print_value : ℕ → Option Bytes → M (Unit {0})
print_value ui none = pure tt
print_value ui (some v) = do
  fits 200 (v ++ codes "\n")
  w ← get
  emit (wrote (w.users ui).sock (v ++ codes "\n"))

unfoldable pub print_variable : ℕ → Option Bytes → M (Unit {0})
print_variable ui none = pure tt
print_variable ui (some key) = do w ← get; print_value ui (get_env key w.env)

unfoldable pub printenv : ℕ → List Bytes → M (Unit {0})
printenv ui argv = print_variable ui (get_elem? argv 1)

unfoldable pub set_variable : ℕ → Bytes → Bytes → M (Unit {0})
set_variable ui key v = do
  w ← get
  put (record w { env = set_env key v w.env })
  fits 200 v
  set_user ui (record (w.users ui) { path = v })

unfoldable pub set_given : ℕ → Option Bytes → Option Bytes → M (Unit {0})
set_given ui (some key) (some v) = set_variable ui key v
set_given ui _ _ = pure tt

unfoldable pub setenv : ℕ → List Bytes → M (Unit {0})
setenv ui argv = set_given ui (get_elem? argv 1) (get_elem? argv 2)

unfoldable pub left_msg : Bytes → Bytes
left_msg name = codes "*** User '" ++ (name ++ codes "' left. ***\n")

-- The two loops over name_pipe_record[1..30][1..30].
abbrev pub clear_record : ℕ → (ℕ → ℕ → Bool) → ℕ → ℕ → Bool
clear_record id r i j =
    if leb 1 i && (leb i qlen && (leb 1 j && (leb j qlen && ((i == id) || (j == id)))))
    then false
    else r i j

unfoldable pub exit_shell {ℓ} : {A : Type ℓ} → ℕ → M A
exit_shell ui = do
  w ← get
  fits 300 (left_msg (w.users ui).name)
  broadcast_msg (left_msg (w.users ui).name)
  v ← get
  put (record v { name_pipe_record = clear_record (suc ui) v.name_pipe_record })
  set_user ui (record (v.users ui) { valid = false })
  return (pos 0)

-- The file is read into an array of 10 rows, and nothing else is done with it.
unfoldable pub batch : System → List Bytes → M (Unit {0})
batch sys argv = do
  name ← deref (get_elem? argv 1)
  fits 100 name
  count ← deref (sys.batch_lines name)
  require (leb count 10) overrun

unfoldable pub who_row : User → ℕ → ℕ → Bytes
who_row u i sock =
    decimal (suc i)
    ++ (codes "\t"
        ++ (u.name
            ++ (codes "\tCGILAB/511\t" ++ (if u.sock == sock then codes "<-me\n" else codes "\n"))))

unfoldable pub who_from : ℕ → ℕ → ℕ → M (Unit {0})
who_from zero i sock = pure tt
who_from (suc n) i sock = do
  w ← get
  if (w.users i).valid then emit (printed (who_row (w.users i) i sock)) else pure tt
  who_from n (suc i) sock

unfoldable pub who : ℕ → M (Unit {0})
who ui = do
  w ← get
  emit (printed (codes "<ID>\t<nickname>\t<IP/port> \t<indicate me>\n"))
  who_from qlen 0 (w.users ui).sock

-- `strcat(out, word); strcat(out, " ");` for each word
unfoldable pub spaced : List Bytes → Bytes
spaced [] = []
spaced (t ∷ ts) = t ++ (codes " " ++ spaced ts)

unfoldable pub told_msg : Bytes → Bytes → Bytes
told_msg name text = name ++ (codes " told you ***: " ++ (text ++ codes "\n"))

unfoldable pub yelled_msg : Bytes → Bytes → Bytes
yelled_msg name text = name ++ (codes " yelled ***: " ++ (text ++ codes "\n"))

abbrev pub stars : Bytes → Bytes
stars text = codes "*** " ++ text

unfoldable pub tell_user : ℕ → ℕ → Bytes → M (Unit {0})
tell_user ui target text = do
  w ← get
  fits 200 text
  let msg = stars (told_msg (w.users ui).name text)
  fits 200 msg
  emit (wrote (w.users target).sock msg)

unfoldable pub tell : ℕ → List Bytes → M (Unit {0})
tell ui argv = do
  target ← deref (get_elem? argv 1)
  w ← get
  let id = atoi target
  if check_id_exist w id
      then tell_user ui (id_index id - 1) (spaced (drop 2 argv))
      else emit (printed (no_user_msg id))

unfoldable pub yell : ℕ → List Bytes → M (Unit {0})
yell ui argv = do
  w ← get
  let text = spaced (drop 1 argv)
  fits 200 text
  let msg = stars (yelled_msg (w.users ui).name text)
  fits 200 msg
  broadcast_msg msg

unfoldable pub taken_msg : Bytes → Bytes
taken_msg name = codes " *** User '" ++ (name ++ codes "' already exists. ***\n")

unfoldable pub named_msg : Bytes → Bytes
named_msg name = codes "*** User from CGILAB/511 is named '" ++ (name ++ codes "'. ***\n")

unfoldable pub take_name : ℕ → Bytes → M (Unit {0})
take_name ui new = do
  fits 30 new
  w ← get
  set_user ui (record (w.users ui) { name = new })
  fits 200 (named_msg new)
  broadcast_msg (named_msg new)

unfoldable pub name_given : ℕ → Option Bytes → M (Unit {0})
name_given ui none = do w ← get; set_user ui (record (w.users ui) { name = no_name })
name_given ui (some new) = do
  w ← get
  if check_name_exist w new then emit (printed (taken_msg new)) else take_name ui new

unfoldable pub name_user : ℕ → List Bytes → M (Unit {0})
name_user ui argv = name_given ui (get_elem? argv 1)
