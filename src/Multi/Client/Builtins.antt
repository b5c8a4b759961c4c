-- ===== src/Multi/Client/Builtins.antt =====
-- The commands that npshell runs itself.
pub mod Laws
use network_programming_nctu.Base.{
  ℕ, zero, suc, ◌-◌, true, List, [], ◌∷◌, ◌++◌, Option, none, some, Bytes, codes, ◌==◌,
  if◌then◌else◌, get_elem?, drop, leb, ltb, length,
}
use network_programming_nctu.Strings.{atoi}
use network_programming_nctu.Strings.Decimal.{decimal}
use network_programming_nctu.Statements.{overrun}
use network_programming_nctu.Rwg.State.{set_env, get_env}
use network_programming_nctu.Rwg.Users.{id_index, no_user_msg, no_name}
use network_programming_nctu.Rwg.Builtins.{
  left_msg, spaced, told_msg, yelled_msg, stars, taken_msg, named_msg,
}
use network_programming_nctu.Solo.Batch.{read_pieces}
use network_programming_nctu.Multi.Memory.{qlen, User, Memory, check_id_exist, check_name_exist}
use network_programming_nctu.Multi.Sections.{Section, broadcasting, telling, leaving}
use network_programming_nctu.Multi.Program.{
  Program, wrote, printed, ◌>>=◌, ◌>>◌, pure, exit, get, put, see, section, rename, emit, require,
  deref,
}
use network_programming_nctu.Multi.Client.State.{Vars, System, Run, fits}

unfoldable pub print_value : ℕ → Option Bytes → Run (Unit {0})
print_value ui none = pure tt
print_value ui (some v) = do
  fits 200 (v ++ codes "\n")
  m ← see
  emit (wrote (m.users ui).sock (v ++ codes "\n"))

unfoldable pub print_variable : ℕ → Option Bytes → Run (Unit {0})
print_variable ui none = pure tt
print_variable ui (some key) = do v ← get; print_value ui (get_env key v.env)

unfoldable pub printenv : ℕ → List Bytes → Run (Unit {0})
printenv ui argv = print_variable ui (get_elem? argv 1)

unfoldable pub set_given : Option Bytes → Option Bytes → Run (Unit {0})
set_given (some key) (some x) = do v ← get; put (record v { env = set_env key x v.env })
set_given _ _ = pure tt

unfoldable pub setenv : List Bytes → Run (Unit {0})
setenv argv = set_given (get_elem? argv 1) (get_elem? argv 2)

unfoldable pub exit_shell {ℓ} : {A : Type ℓ} → ℕ → Run A
exit_shell ui = do
  m ← see
  fits 300 (left_msg (m.users ui).name)
  section (broadcasting (left_msg (m.users ui).name))
  section (leaving ui)
  exit

unfoldable pub batch : System → List Bytes → Run (Unit {0})
batch sys argv = do
  name ← deref (get_elem? argv 1)
  fits 100 name
  content ← deref (sys.content name)
  v ← get
  let rows = v.batch_command ++ read_pieces content
  require (leb (length rows) 10) overrun
  put (record v { batch_flag = true; batch_command = rows; batch_command_index = 0 })

unfoldable pub who_row : User → ℕ → ℕ → Bytes
who_row u i sock =
    decimal (suc i)
    ++ (codes "\t"
        ++ (u.name
            ++ codes (if u.sock == sock then "\tCGILAB/511\t<-me\n" else "\tCGILAB/511\t\n")))

-- The rounds that are left, and the index; the rows are read without the lock.
unfoldable pub who_from : ℕ → ℕ → ℕ → Run (Unit {0})
who_from zero i sock = pure tt
who_from (suc n) i sock = do
  m ← see
  if (m.users i).valid then emit (printed (who_row (m.users i) i sock)) else pure tt
  who_from n (suc i) sock

unfoldable pub who : ℕ → Run (Unit {0})
who sock = do
  emit (printed (codes "<ID>\t<nickname>\t<IP/port> \t<indicate me>\n"))
  who_from qlen 0 sock

unfoldable pub tell_user : ℕ → ℕ → Bytes → Run (Unit {0})
tell_user ui target text = do
  fits 1500 text
  m ← see
  let msg = stars (told_msg (m.users ui).name text)
  fits 1500 msg
  section (telling target msg)

unfoldable pub tell : ℕ → List Bytes → Run (Unit {0})
tell ui argv = do
  target ← deref (get_elem? argv 1)
  let id = atoi target
  m ← see
  if check_id_exist m id
      then tell_user ui (id_index id - 1) (spaced (drop 2 argv))
      else emit (printed (no_user_msg id))

unfoldable pub yell : ℕ → List Bytes → Run (Unit {0})
yell ui argv = do
  let text = spaced (drop 1 argv)
  fits 1500 text
  m ← see
  let msg = stars (yelled_msg (m.users ui).name text)
  fits 1500 msg
  section (broadcasting msg)

unfoldable pub take_name : ℕ → Bytes → Run (Unit {0})
take_name ui new = do
  fits 30 new
  rename ui new
  m ← see
  fits 1500 (named_msg (m.users ui).name)
  section (broadcasting (named_msg (m.users ui).name))

unfoldable pub name_given : ℕ → Option Bytes → Run (Unit {0})
name_given ui none = rename ui no_name
name_given ui (some new) = do
  m ← see
  if check_name_exist m new then emit (printed (taken_msg new)) else take_name ui new

unfoldable pub name_user : ℕ → List Bytes → Run (Unit {0})
name_user ui argv = name_given ui (get_elem? argv 1)
