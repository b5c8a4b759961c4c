-- ===== src/Cgi/Sessions.antt =====
-- The sessions of one page of the Windows server: NpShellConnect and NpShellRun. They share the
-- socket of the browser, and their handlers run one after the other, in any order.
pub mod Laws
use network_programming_nctu.Base.{
  Bool, true, false, List, [], ◌∷◌, ◌++◌, Option, none, some, Bytes, codes, same, if◌then◌else◌,
}
use network_programming_nctu.Console.{HostInfo, encode, one_line, has_prompt}

-- What is left to send to a shell, and what was sent.
pub record NpShellRun : Type 0 where
  pub command : List Bytes
  pub sent : Bytes

-- A text that is added to an element of the page.
pub record Insert : Type 0 where
  pub element : Bytes
  pub text : Bytes

-- The bytes that write_to_console writes for it.
unfoldable pub insert_bytes : Insert → Bytes
insert_bytes w =
    codes "<script>document.getElementById('"
    ++ (w.element ++ (codes "').innerHTML += \"" ++ (one_line w.text ++ codes "\";</script>")))

-- The runs by the ids of their sessions, what was written to the browser's socket, the oldest first,
-- and whether a write to that socket still succeeds.
pub record Page : Type 0 where
  pub runs : Bytes → Option NpShellRun
  pub inserts : List Insert
  pub writable : Bool

-- The asynchronous calls that complete.
pub data Completion : Type 0 where
  -- async_resolve and async_connect succeed
  connects : HostInfo → Completion
  -- one of them fails
  fails : Completion
  -- async_read_some of the session with this id
  answers : (id response : Bytes) → Completion
  -- the connection to the browser is reset: later than the browser's closing of it, as TCP takes the
  -- write behind that as a rule
  resets : Completion

abbrev pub set_run : Bytes → NpShellRun → Page → Page
set_run id run s = record s { runs = λ j. if same id j then some run else s.runs j }

-- NpShellRun.start: the lines of the file are the commands, none if it cannot be opened.
unfoldable pub start : (Bytes → List Bytes) → HostInfo → NpShellRun
start lines_of info = record { command = lines_of (codes "./test_case/" ++ info.file); sent = [] }

-- The first command is shown and sent.
unfoldable pub send_command : Bytes → Bool → List Bytes → NpShellRun → NpShellRun × List Insert
send_command id false lines run = (run, [])
send_command id true [] run = (run, [])
send_command id true (line ∷ rest) run = (
  record run { command = rest; sent = run.sent ++ (line ++ codes "\n") },
  record { element = id; text = encode line }
      ∷ record { element = id; text = codes " &NewLine;" }
      ∷ [],
)

-- The handler of a read that succeeds.
unfoldable pub do_read : Bytes → Bytes → NpShellRun → NpShellRun × List Insert
do_read id response run =
    let (after, shown) = send_command id (has_prompt (encode response)) run.command run in
    (after, record { element = id; text = encode response } ∷ shown)

abbrev pub read_into : Bytes → NpShellRun × List Insert → Page → Page
read_into id (run, shown) s = record (set_run id run s) { inserts = s.inserts ++ shown }

-- A write to a connection that was reset throws, and nothing in the handler catches it.
abbrev pub answer : Bytes → Bytes → Option NpShellRun → Page → Option Page
answer id response none s = some s
answer id response (some run) s =
    if s.writable then some (read_into id (do_read id response run) s) else none

-- `none`: the exception leaves ioservice.run(), and the server ends.
unfoldable pub complete : (Bytes → List Bytes) → Completion → Page → Option Page
complete lines_of (connects info) s = some (set_run info.id (start lines_of info) s)
complete lines_of fails s = some s
complete lines_of (answers id response) s = answer id response (s.runs id) s
complete lines_of resets s = some (record s { writable = false })

abbrev pub and_then : Option Page → (Page → Option Page) → Option Page
and_then none k = none
and_then (some s) k = k s

unfoldable pub serve : (Bytes → List Bytes) → List Completion → Page → Option Page
serve lines_of [] s = some s
serve lines_of (c ∷ cs) s = and_then (complete lines_of c s) (serve lines_of cs)
