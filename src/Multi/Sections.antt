-- ===== src/Multi/Sections.antt =====
-- What the code does between sem_wait(clisem) and sem_signal(clisem): in npshell_3.h, and in main
-- of np_multi_proc.cpp. Row 30 is reached by ids, lies behind the 30 rows that are asked for, and is
-- taken to be there: the kernel rounds the segment up to whole pages.
pub mod Effects
use network_programming_nctu.Base.{
  ℕ, zero, suc, Bool, true, false, not, ◌&&◌, ◌||◌, Bytes, codes, ◌==◌, if◌then◌else◌, Option, none,
  some, List, [], ◌∷◌, ◌++◌, first_from, leb, map, indices,
}
use network_programming_nctu.Statements.{
  M, Step, next, stop, fault, ◌>>=◌, ◌>>◌, pure, get, fail, unset,
}
use network_programming_nctu.Multi.Memory.{qlen, User, Memory, Access, set_row, kill}
use network_programming_nctu.Multi.Mailbox.{put_message}

-- A statement on one row.
abbrev pub on_row : ℕ → M User (Unit {0}) → Access
on_row i s m = elim (s (m.users i)) [
  | next t u ↦ set_row i u m
  | stop r u ↦ stop r m
  | fault e ↦ fault e
]

-- One round of the loop of broadcast_msg.
unfoldable pub deliver : Bytes → ℕ → Access
deliver msg i = do
  m ← get
  if (m.users i).valid then on_row i (put_message msg) >> kill (m.users i).pid else pure tt

unfoldable pub broadcast_section : Bytes → List Access
broadcast_section msg = map (deliver msg) (indices qlen 0)

-- The end of `tell`.
unfoldable pub tell_section : ℕ → Bytes → List Access
tell_section target msg =
    on_row target (put_message msg) ∷ (get >>= λ m. kill (m.users target).pid) ∷ []

-- `user[row].name_pipe_record[sender] = v`
abbrev pub set_record : ℕ → ℕ → Bool → Access
set_record row sender v = do
  m ← get
  set_row row (record (m.users row) {
    name_pipe_record = λ j. if j == sender then v else (m.users row).name_pipe_record j;
  })

-- `<N`: `ui` is the index of the user who reads.
unfoldable pub take_section : ℕ → ℕ → List Access
take_section sender ui = set_record (suc ui) sender false ∷ []

-- `>N`
unfoldable pub give_section : ℕ → ℕ → List Access
give_section receiver ui = set_record receiver (suc ui) true ∷ []

-- The two loops of `exit`, for the pairs in which the user's id is.
unfoldable pub clear_pairs : ℕ → ℕ → List ℕ → List Access
clear_pairs id i [] = []
clear_pairs id i (j ∷ js) =
    let rest = clear_pairs id i js in
    if (i == id) || (j == id) then set_record i j false ∷ rest else rest

unfoldable pub clear_rows : ℕ → List ℕ → List Access
clear_rows id [] = []
clear_rows id (i ∷ rows) = clear_pairs id i (indices qlen 1) ++ clear_rows id rows

abbrev pub clear_valid : ℕ → Access
clear_valid ui = do m ← get; set_row ui (record (m.users ui) { valid = false })

unfoldable pub exit_section : ℕ → List Access
exit_section ui = clear_rows (suc ui) (indices qlen 1) ++ clear_valid ui ∷ []

unfoldable pub find_space : Memory → Option ℕ
find_space m = first_from qlen 0 (λ i. not (m.users i).valid)

-- The fields that main sets for a client; `id`, `pid` and the record of user pipes are not among
-- them.
abbrev pub enter : User → ℕ → Bytes → ℕ → User
enter u sock addr port = record u {
  valid = true;
  sock = sock;
  addr = addr;
  name = codes "(no name)";
  port = port;
  batch_flag = false;
  ignore = false;
  receive = false;
  msg_count = 0;
}

unfoldable pub fill_row : ℕ → Bytes → ℕ → Option ℕ → Access
fill_row sock addr port none = fail unset
fill_row sock addr port (some i) = do m ← get; set_row i (enter (m.users i) sock addr port)

unfoldable pub accept_section : ℕ → Bytes → ℕ → List Access
accept_section sock addr port = (get >>= λ m. fill_row sock addr port (find_space m)) ∷ []

-- The child of a client notes its number.
unfoldable pub pid_section : ℕ → ℕ → List Access
pid_section i pid = (get >>= λ m. set_row i (record (m.users i) { pid = pid })) ∷ []

-- The sections that a process can be in.
pub data Section : Type 0 where
  accepting : (sock : ℕ) (addr : Bytes) (port : ℕ) → Section
  noting_pid : (i pid : ℕ) → Section
  broadcasting : (msg : Bytes) → Section
  telling : (target : ℕ) (msg : Bytes) → Section
  taking : (sender ui : ℕ) → Section
  giving : (receiver ui : ℕ) → Section
  leaving : (ui : ℕ) → Section

abbrev pub body : Section → List Access
body (accepting sock addr port) = accept_section sock addr port
body (noting_pid i pid) = pid_section i pid
body (broadcasting msg) = broadcast_section msg
body (telling target msg) = tell_section target msg
body (taking sender ui) = take_section sender ui
body (giving receiver ui) = give_section receiver ui
body (leaving ui) = exit_section ui

unfoldable pub run_all : List Access → Access
run_all [] = pure tt
run_all (a ∷ rest) = a >> run_all rest
