-- ===== src/Cgi/Sessions/Laws.antt =====
-- The sessions do not get into each other's way.
use network_programming_nctu.Base.{
  ◌≡◌, refl, ap, ◌∙◌, sym, Bool, true, false, List, [], ◌∷◌, ◌++◌, append-nil, append_assoc, Option,
  none, some, Bytes, codes, same, same_iff, if◌then◌else◌, if_both, All, Bool-cases, inl, inr,
  subst,
}
use network_programming_nctu.Console as Console3
use network_programming_nctu.Console.{
  HostInfo, encode, has_prompt, script, one_line, write_to_console, run_reads,
}
use network_programming_nctu.Cgi.Sessions.{
  NpShellRun, Insert, insert_bytes, Page, Completion, connects, fails, answers, resets,
  send_command, do_read, answer, complete, and_then, serve,
}

-- What goes to the browser's socket for an element of the page, each text on a line of its own.
abbrev pub shown_in : Bytes → List Insert → Bytes
shown_in id [] = []
shown_in id (w ∷ ws) =
    if same id w.element then insert_bytes w ++ (codes "\n" ++ shown_in id ws) else shown_in id ws

-- A session as the console of project 3 has it, with a page of its own.
abbrev pub as_console : Bytes → NpShellRun → List Insert → Console3.NpShellRun
as_console id run ws = record {
  id = id;
  command = run.command;
  page = shown_in id ws;
  sent = run.sent;
}

-- What the shell of a session answers.
abbrev pub answers_of : Bytes → List Completion → List Bytes
answers_of id [] = []
answers_of id (connects info ∷ cs) = answers_of id cs
answers_of id (fails ∷ cs) = answers_of id cs
answers_of id (resets ∷ cs) = answers_of id cs
answers_of id (answers j r ∷ cs) = if same id j then r ∷ answers_of id cs else answers_of id cs

abbrev pub StartsOther : Bytes → Completion → Type 0
StartsOther id (connects info) = same info.id id ≡ false
StartsOther id fails = Unit {0}
StartsOther id (answers j r) = Unit {0}
StartsOther id resets = Unit {0}

-- What the two programs write of one text differs in the end of the line.
insert_bytes-script :
    (w : Insert) (rest : Bytes)
    → insert_bytes w ++ (codes "\n" ++ rest) ≡ script w.element w.text ++ rest
unfolding insert_bytes script
insert_bytes-script w rest = ap (◌++◌ (codes "<script>document.getElementById('")) (
    append_assoc w.element _ (codes "\n" ++ rest)
    ∙ ap (λ t. w.element ++ (codes "').innerHTML += \"" ++ t))
        (append_assoc (one_line w.text) (codes "\";</script>") (codes "\n" ++ rest))
    ∙ sym (
        append_assoc w.element _ rest
        ∙ ap (λ t. w.element ++ (codes "').innerHTML += \"" ++ t))
            (append_assoc (one_line w.text) (codes "\";</script>\n") rest)))

shown_in-append :
    (id : Bytes) (ws vs : List Insert) → shown_in id (ws ++ vs) ≡ shown_in id ws ++ shown_in id vs
shown_in-append id [] vs = refl
shown_in-append id (w ∷ ws) vs = elim (Bool-cases (same id w.element)) [
  | inl e ↦ rw e (
      ap (λ t. insert_bytes w ++ (codes "\n" ++ t)) (shown_in-append id ws vs)
      ∙ sym (append_assoc (insert_bytes w) (codes "\n" ++ shown_in id ws) (shown_in id vs)))
  | inr e ↦ rw e (shown_in-append id ws vs)
]

same_refl : (id : Bytes) → same id id ≡ true
same_refl id = (same_iff id id).1 refl

same-false : (s t : Bytes) → same s t ≡ false → same t s ≡ false
same-false s t e = elim (Bool-cases (same t s)) [
  | inl h ↦ cc (same_refl s, (same_iff t s).0 h)
  | inr h ↦ h
]

shown_in-one :
    (id text : Bytes) (ws : List Insert)
    → shown_in id (record { element = id; text = text } ∷ ws) ≡ script id text ++ shown_in id ws
shown_in-one id text ws =
    rw (same_refl id) (insert_bytes-script (record { element = id; text = text }) (shown_in id ws))

insert : Bytes → Bytes → Insert
insert id text = record { element = id; text = text }

shown_in-snoc :
    (id text : Bytes) (ws : List Insert)
    → shown_in id (ws ++ insert id text ∷ []) ≡ shown_in id ws ++ script id text
unfolding insert
shown_in-snoc id text ws =
    shown_in-append id ws (insert id text ∷ [])
    ∙ ap (◌++◌ (shown_in id ws)) (shown_in-one id text [] ∙ append-nil (script id text))

send_command-agrees :
    (id : Bytes) (b : Bool) (lines : List Bytes) (run : NpShellRun) (ws : List Insert)
    → as_console id (send_command id b lines run).0 (ws ++ (send_command id b lines run).1)
      ≡ Console3.answer b lines (as_console id run ws)
unfolding send_command Console3.answer Console3.send_command write_to_console insert
send_command-agrees id false lines run ws = ap (as_console id run) (append-nil ws)
send_command-agrees id true [] run ws = ap (as_console id run) (append-nil ws)
send_command-agrees id true (line ∷ rest) run ws =
    ap
      (λ page. record {
        id = id;
        command = rest;
        page = page;
        sent = run.sent ++ (line ++ codes "\n");
      })
      (ap (shown_in id) (sym (append_assoc ws (shown ∷ []) (ended ∷ [])))
        ∙ shown_in-snoc id (codes " &NewLine;") (ws ++ shown ∷ [])
        ∙ ap (λ page. page ++ script id (codes " &NewLine;")) (shown_in-snoc id (encode line) ws))
  where
    shown : Insert
    shown = insert id (encode line)

    ended : Insert
    ended = insert id (codes " &NewLine;")

do_read-agrees :
    (id r : Bytes) (run : NpShellRun) (ws : List Insert)
    → as_console id (do_read id r run).0 (ws ++ (do_read id r run).1)
      ≡ Console3.do_read r (as_console id run ws)
unfolding do_read Console3.do_read write_to_console insert
do_read-agrees id r run ws =
    ap (as_console id (send_command id b run.command run).0)
      (sym (append_assoc ws (shown ∷ []) (send_command id b run.command run).1))
    ∙ send_command-agrees id b run.command run (ws ++ shown ∷ [])
    ∙ ap (λ page. Console3.answer b run.command (as_page page)) (shown_in-snoc id (encode r) ws)
  where
    b : Bool
    b = has_prompt (encode r)

    shown : Insert
    shown = insert id (encode r)

    as_page : Bytes → Console3.NpShellRun
    as_page page = record { id = id; command = run.command; page = page; sent = run.sent }

send_command-other :
    (id j : Bytes) (b : Bool) (lines : List Bytes) (run : NpShellRun)
    → same id j ≡ false
    → shown_in id (send_command j b lines run).1 ≡ []
unfolding send_command
send_command-other id j false lines run e = refl
send_command-other id j true [] run e = refl
send_command-other id j true (line ∷ rest) run e = rw e refl

-- What another session writes is in another element.
other_element :
    (id j r : Bytes) (run : NpShellRun) (ws : List Insert)
    → same id j ≡ false
    → shown_in id (ws ++ (do_read j r run).1) ≡ shown_in id ws
unfolding do_read
other_element id j r run ws e =
    shown_in-append id ws (do_read j r run).1
    ∙ ap (◌++◌ (shown_in id ws))
        (rw e (send_command-other id j (has_prompt (encode r)) run.command run e))
    ∙ append-nil (shown_in id ws)

-- `id`'s run in the state that follows, if there is one, is what the console of project 3 makes of the
-- answers `rs`.
abbrev Follows : Bytes → NpShellRun → Page → List Bytes → Option Page → Type 0
Follows id run s rs none = Unit {0}
Follows id run s rs (some s') =
    (run' : NpShellRun) × (s'.runs id ≡ some run')
    × (as_console id run' s'.inserts ≡ run_reads rs (as_console id run s.inserts))

module _ (id : Bytes) (run : NpShellRun) (s : Page) (there : s.runs id ≡ some run) where
  answer-own : (r : Bytes) → Follows id run s (r ∷ []) (answer id r (s.runs id) s)
  unfolding run_reads
  answer-own r = rw there (
      if_both (Follows id run s (r ∷ [])) s.writable
        ((do_read id r run).0, rw (same_refl id) refl, do_read-agrees id r run s.inserts) tt)

  answer-other :
      (j r : Bytes) (o : Option NpShellRun)
      → same id j ≡ false
      → same j id ≡ false
      → Follows id run s [] (answer j r o s)
  unfolding run_reads
  answer-other j r none e e' = (run, there, refl)
  answer-other j r (some other) e e' =
      if_both (Follows id run s []) s.writable
        (
          run,
          rw e' there,
          ap (λ page. record { id = id; command = run.command; page = page; sent = run.sent })
              (other_element id j r other s.inserts e),
        )
        tt

  complete-Follows :
      (lines_of : Bytes → List Bytes) (c : Completion)
      → StartsOther id c
      → Follows id run s (answers_of id (c ∷ [])) (complete lines_of c s)
  unfolding complete run_reads
  complete-Follows lines_of (connects info) e = (run, rw e there, refl)
  complete-Follows lines_of fails e = (run, there, refl)
  complete-Follows lines_of resets e = (run, there, refl)
  complete-Follows lines_of (answers j r) e = elim (Bool-cases (same id j)) [
    | inl own ↦
        subst (λ k. Follows id run s (if same id k then r ∷ [] else []) (answer k r (s.runs k) s))
          ((same_iff id j).0 own) (rw (same_refl id) (answer-own r))
    | inr other ↦ rw other (answer-other j r (s.runs j) other (same-false id j other))
  ]

run_reads-append :
    (rs ts : List Bytes) (c : Console3.NpShellRun)
    → run_reads (rs ++ ts) c ≡ run_reads ts (run_reads rs c)
unfolding run_reads
run_reads-append [] ts c = refl
run_reads-append (r ∷ rs) ts c = run_reads-append rs ts (Console3.do_read r c)

answers_of-cons :
    (id : Bytes) (c : Completion) (cs : List Completion)
    → answers_of id (c ∷ cs) ≡ answers_of id (c ∷ []) ++ answers_of id cs
answers_of-cons id (connects info) cs = refl
answers_of-cons id fails cs = refl
answers_of-cons id resets cs = refl
answers_of-cons id (answers j r) cs = elim (Bool-cases (same id j)) [
  | inl e ↦ rw e refl
  | inr e ↦ rw e refl
]

module _ (id : Bytes) (run : NpShellRun) (s : Page) (rs ts : List Bytes) where
  widen-Follows :
      (run' : NpShellRun) (s' : Page) (o : Option Page)
      → as_console id run' s'.inserts ≡ run_reads rs (as_console id run s.inserts)
      → Follows id run' s' ts o
      → Follows id run s (rs ++ ts) o
  widen-Follows run' s' none e h = tt
  widen-Follows run' s' (some s2) e (run2, there, e2) = (
    run2,
    there,
    e2 ∙ ap (run_reads ts) e ∙ sym (run_reads-append rs ts (as_console id run s.inserts)),
  )

  and_then-Follows :
      (o : Option Page) (k : Page → Option Page)
      → Follows id run s rs o
      → ((run' : NpShellRun) (s' : Page) → s'.runs id ≡ some run' → Follows id run' s' ts (k s'))
      → Follows id run s (rs ++ ts) (and_then o k)
  and_then-Follows none k h step = tt
  and_then-Follows (some s') k (run', there, e) step =
      widen-Follows run' s' (k s') e (step run' s' there)

serve-Follows :
    (lines_of : Bytes → List Bytes) (id : Bytes) (run : NpShellRun) (s : Page)
    (cs : List Completion)
    → s.runs id ≡ some run
    → All (StartsOther id) cs
    → Follows id run s (answers_of id cs) (serve lines_of cs s)
unfolding serve run_reads
serve-Follows lines_of id run s [] there h = (run, there, refl)
serve-Follows lines_of id run s (c ∷ cs) there (p, h) = rw (answers_of-cons id c cs) (
    and_then-Follows id run s (answers_of id (c ∷ [])) (answers_of id cs) (complete lines_of c s)
      (serve lines_of cs) (complete-Follows id run s there lines_of c p)
      (λ run' s' there'. serve-Follows lines_of id run' s' cs there' h))

-- The sessions of a page share one socket of the browser, and their shells answer in any order, while
-- others connect or fail to. As long as no write to the browser fails, each session that has connected,
-- and is not connected again, sends to its shell exactly what the console of project 3, which serves
-- it alone, sends for the same answers; and the scripts that went to the browser for its element, each
-- with the end of a line behind it, are exactly what that console prints.
pub sessions_agree :
    (lines_of : Bytes → List Bytes) (id : Bytes) (run : NpShellRun) (s s' : Page)
    (cs : List Completion)
    → s.runs id ≡ some run
    → All (StartsOther id) cs
    → serve lines_of cs s ≡ some s'
    → (run' : NpShellRun) × (s'.runs id ≡ some run')
      × (as_console id run' s'.inserts ≡ run_reads (answers_of id cs) (as_console id run s.inserts))
sessions_agree lines_of id run s s' cs there h e =
    subst (Follows id run s (answers_of id cs)) e (serve-Follows lines_of id run s cs there h)
