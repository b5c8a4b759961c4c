-- ===== src/Tests/MultiWitnesses.antt =====
-- The theorems on the shell of part 1 and on the processes of the final server, at concrete inputs.
use network_programming_nctu.Base.{
  ◌≢◌, ℕ, suc, ◌<◌, ◌≤◌, ◌≡◌, refl, arith, true, false, [], ◌∷◌, codes, none, ◌==◌, update,
  if◌then◌else◌,
}
use network_programming_nctu.Base.{Bytes}
use network_programming_nctu.Strings.{format_line}
use network_programming_nctu.Statements.Ends as Statement
use network_programming_nctu.Statements.{next}
use network_programming_nctu.Solo.State as Solo
use network_programming_nctu.Solo.Loop.{rounds, initial_shell}
use network_programming_nctu.Solo.Loop as Part1
use network_programming_nctu.Solo.Earlier
use network_programming_nctu.Solo.Loop.Laws.{
  in_batch, deaf, no_batch, prompts, nothing_runs_after_batch,
}
use network_programming_nctu.Multi.Memory.{User, Memory, qlen}
use network_programming_nctu.Multi.Mailbox.{posted, put_message}
use network_programming_nctu.Multi.Mailbox.Race.{
  Box, resetting, idle, resting, Moves, AnyTime, waiting, message_lost, message_repeated,
}
use network_programming_nctu.Multi.Sections.{
  Section, noting_pid, pid_section, body, run_all, broadcast_section,
}
use network_programming_nctu.Multi.Sections.Effects.{received, broadcast_reaches}
use network_programming_nctu.Multi.Processes
use network_programming_nctu.Multi.Processes.{Reach, inside, outside}
use network_programming_nctu.Multi.Processes.Lock.{lock_spoilt}
use network_programming_nctu.Multi.Running
use network_programming_nctu.Multi.Running.{Server, searching, filling, take_row, fill_writes}
use network_programming_nctu.Multi.Client.State as Client

-- Rows 0 and 1 are in use.
abbrev row : ℕ → User
row i = record {
  valid = if i == 0 then true else i == 1;
  id = suc i;
  pid = 100;
  sock = 4;
  addr = codes "10.0.0.1";
  name = codes "(no name)";
  port = 1000;
  batch_flag = false;
  ignore = false;
  name_pipe_record = λ _. false;
  broadcast_msg = λ _. [];
  msg_count = 0;
  receive = false;
}

abbrev memory : Memory
memory = record { users = row; signalled = [] }

-- Process 3 notes its number.
abbrev noting : Section
noting = noting_pid 1 77

abbrev entered : Processes.System
entered = record (Processes.init memory) {
  clisem = 0;
  pc = update (λ _. outside) 3 (inside (body noting));
  log = noting ∷ [];
}

abbrev noted : Memory
noted = record memory { users = λ j. if j == 1 then record (row 1) { pid = 77 } else row j }

three≢four : ◌≢◌ {A = ℕ} 3 4
three≢four = omega arith

lock_spoilt_example :
    (t : Processes.System) × Reach ⊥ Unit memory t
    × (t.pc 3 ≡ inside (body noting))
    × (t.pc 4 ≡ inside (body noting))
unfolding pid_section run_all
lock_spoilt_example = lock_spoilt memory noted noting noting 3 4 three≢four refl

abbrev client_system : Client.System
client_system = record { pipe_fds = λ n. (n, suc n); content = λ _. none }

-- Row 0 is in use, while main finds row 2 for a client.
abbrev searched : Server
searched = record (Running.init memory) { clisem = 0; main = searching 9 (codes "10.0.0.2") 4000 2 }

abbrev third_taken : Server
third_taken = record searched {
  memory = take_row 2 memory;
  main = filling 2 (fill_writes 2 9 (codes "10.0.0.2") 4000);
}

abbrev at_reset : Box
at_reset = record { row = row 0; reader = resetting; sender = resting; sent = []; printed = [] }

message_lost_example :
    (c : Box) × Moves AnyTime at_reset c
    × (c.sent ≡ codes "hi" ∷ [])
    × (c.printed ≡ [])
    × (c.reader ≡ idle)
    × (c.sender ≡ resting)
    × (waiting c.reader c.row ≡ [])
unfolding put_message format_line
message_lost_example = message_lost at_reset (codes "hi") (codes "hi") refl refl refl

-- One message waits.
abbrev one_waits : Box
one_waits = record at_reset {
  row = posted (codes "a") (row 0);
  reader = idle;
  sent = codes "a" ∷ [];
}

message_repeated_example :
    (c : Box) × Moves AnyTime one_waits c
    × (c.sent ≡ codes "a" ∷ codes "b" ∷ [])
    × (c.printed ≡ codes "a" ∷ codes "a" ∷ [])
    × (c.reader ≡ idle)
    × (c.sender ≡ resting)
    × (waiting c.reader c.row ≡ [])
unfolding put_message format_line
message_repeated_example = message_repeated one_waits (codes "b") (codes "b") refl refl refl refl

broadcast_reaches_example :
    (m : Memory) × (run_all (broadcast_section (codes "hi")) memory ≡ next tt m)
    × ((j : ℕ) → j < qlen → m.users j ≡ received (codes "hi") (row j))
    × ((j : ℕ) → qlen ≤ j → m.users j ≡ row j)
unfolding format_line
broadcast_reaches_example =
    broadcast_reaches (codes "hi") (codes "hi") memory refl (omega arith) (λ j v h. omega arith)

abbrev solo_system : Solo.System
solo_system = record { pipe_fds = λ n. (n, suc n); content = λ _. none; leftover = [] }

abbrev shell : Solo.Shell
shell = initial_shell [] []

nothing_runs_after_batch_example :
    rounds solo_system 2 (in_batch (codes "ls\n") [] 1 (codes "exit\n") shell)
    ≡ next tt (deaf [] (prompts 1 []) (no_batch shell))
unfolding initial_shell
nothing_runs_after_batch_example =
    nothing_runs_after_batch solo_system (codes "ls\n") [] 1 (codes "exit" ∷ []) [] shell refl
      (((ground arith, (ground arith, (ground arith, (ground arith, tt)))), omega arith), tt)

abbrev two_words : Bytes
two_words = codes "ls | cat"
