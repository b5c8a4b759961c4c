-- ===== src/Multi/Running/Rows.antt =====
-- A row in use is kept by all processes but its own.
use network_programming_nctu.Base.{
  ℕ, suc, ◌≡◌, ◌≢◌, refl, sym, ap, ◌∙◌, Bool, true, false, ◌||◌, ◌==◌, ==_iff, if◌then◌else◌,
  if_both, Bool-cases, Option-cases, inl, inr, List, [], ◌∷◌, All, All-append, Option, none, some,
  Bytes, map, indices, ltb, length, arith,
}
use network_programming_nctu.Strings.{format_line}
use network_programming_nctu.Statements.{
  M, Step, next, stop, fault, get, put, pure, require, or_fail, overrun, bad_format, ◌>>=◌, ◌>>◌,
}
use network_programming_nctu.Statements.Ends.{Ends, bind-Ends}
use network_programming_nctu.Multi.Memory.{qlen, User, Memory, Access, set_row, kill}
use network_programming_nctu.Multi.Mailbox.{
  slots, slot_size, posted, put_message, own_row, print_messages, real_broadcast_msg,
}
use network_programming_nctu.Multi.Sections.{
  Section, accepting, noting_pid, broadcasting, telling, taking, giving, leaving, body, on_row,
  deliver, broadcast_section, tell_section, set_record, take_section, give_section, clear_pairs,
  clear_rows, clear_valid, exit_section, pid_section,
}
use network_programming_nctu.Multi.Client.Parse.Laws.{IsAllowed}
use network_programming_nctu.Multi.Running.{fill_writes}

-- Whose row it is, as the others see it.
pub record Identity : Type 0 where
  pub valid : Bool
  pub id : ℕ
  pub pid : ℕ
  pub sock : ℕ
  pub addr : Bytes
  pub name : Bytes
  pub port : ℕ

abbrev pub identity : User → Identity
identity u = record {
  valid = u.valid;
  id = u.id;
  pid = u.pid;
  sock = u.sock;
  addr = u.addr;
  name = u.name;
  port = u.port;
}

-- An access that leaves the row `j` to its client, if it has one.
abbrev pub SameRow : ℕ → Memory → Memory → Type 0
SameRow j m m' = identity (m'.users j) ≡ identity (m.users j)

abbrev pub KeepsRow : ℕ → Access → Type 0
KeepsRow j a =
    (m : Memory) → (m.users j).valid ≡ true → Ends (λ _ m'. SameRow j m m') (λ _. Unit {0}) (a m)

pub row-write :
    (j i : ℕ) (u : User) (m : Memory)
    → identity u ≡ identity (m.users i)
    → identity (if j == i then u else m.users j) ≡ identity (m.users j)
row-write j i u m e = elim (Bool-cases (j == i)) [
  | inl same ↦ rw same (e ∙ ap (λ k. identity (m.users k)) (sym ((==_iff j i).0 same)))
  | inr other ↦ rw other refl
]

pub row-other :
    (j i : ℕ) (u : User) (m : Memory)
    → i ≢ j
    → identity (if j == i then u else m.users j) ≡ identity (m.users j)
row-other j i u m d = rw (different) refl
  where
    different : (j == i) ≡ false
    different = ground arith

put_message-identity :
    (msg : Bytes) (u : User)
    → Ends (λ _ u'. identity u' ≡ identity u) (λ _. Unit {0}) (put_message msg u)
unfolding put_message
put_message-identity msg u = formatted (format_line msg)
  where
    checked :
        (a b : Bool) (text : Bytes)
        → Ends
            (λ _ u'. identity u' ≡ identity u)
            (λ _. Unit {0})
            ((require a overrun >> (require b overrun >> put (posted text u))) u)
    checked true true text = refl
    checked true false text = tt
    checked false b text = tt

    formatted :
        (o : Option Bytes)
        → Ends
            (λ _ u'. identity u' ≡ identity u)
            (λ _. Unit {0})
            ((or_fail o bad_format >>= λ text. get >>= λ v.
                require (ltb v.msg_count slots) overrun
                >> (require (ltb (length text) slot_size) overrun >> put (posted text v)))
              u)
    formatted none = tt
    formatted (some text) = checked (ltb u.msg_count slots) (ltb (length text) slot_size) text

on_row-KeepsRow :
    (j i : ℕ) (s : M User (Unit {0}))
    → ((u : User) → Ends (λ _ u'. identity u' ≡ identity u) (λ _. Unit {0}) (s u))
    → KeepsRow j (on_row i s)
on_row-KeepsRow j i s h m v = go (s (m.users i)) (h (m.users i))
  where
    go :
        (r : Step User (Unit {0}))
        → Ends (λ _ u'. identity u' ≡ identity (m.users i)) (λ _. Unit {0}) r
        → Ends
            (λ _ m'. SameRow j m m')
            (λ _. Unit {0})
            elim r [ next t u ↦ set_row i u m | stop x u ↦ stop x m | fault e ↦ fault e ]
    go (next t u) e = row-write j i u m e
    go (stop x u) e = tt
    go (fault x) e = tt

-- One access behind another, the second with nothing to write to a row but mailboxes.
then_kill :
    (j i : ℕ) (s : M User (Unit {0})) (pid : ℕ)
    → ((u : User) → Ends (λ _ u'. identity u' ≡ identity u) (λ _. Unit {0}) (s u))
    → KeepsRow j (on_row i s >> kill pid)
then_kill j i s pid h m v =
    bind-Ends (λ _ m'. SameRow j m m') (λ _ m'. SameRow j m m') (λ _. Unit {0}) (on_row i s)
      (λ _. kill pid) m (on_row-KeepsRow j i s h m v) (λ t m' e. e)

deliver-KeepsRow : (j : ℕ) (msg : Bytes) (i : ℕ) → KeepsRow j (deliver msg i)
unfolding deliver
deliver-KeepsRow j msg i m v = entered (m.users i).valid
  where
    entered :
        (b : Bool)
        → Ends
            (λ _ m'. SameRow j m m')
            (λ _. Unit {0})
            ((if b then on_row i (put_message msg) >> kill (m.users i).pid else pure tt) m)
    entered true = then_kill j i (put_message msg) (m.users i).pid (put_message-identity msg) m v
    entered false = refl

set_record-KeepsRow : (j row sender : ℕ) (b : Bool) → KeepsRow j (set_record row sender b)
set_record-KeepsRow j row sender b m v = row-write j row _ m refl

All-map :
    (j : ℕ) (f : ℕ → Access)
    → ((i : ℕ) → KeepsRow j (f i))
    → (xs : List ℕ) → All (KeepsRow j) (map f xs)
All-map j f h [] = tt
All-map j f h (x ∷ xs) = (h x, All-map j f h xs)

clear_pairs-KeepsRow : (j id i : ℕ) (ks : List ℕ) → All (KeepsRow j) (clear_pairs id i ks)
unfolding clear_pairs
clear_pairs-KeepsRow j id i [] = tt
clear_pairs-KeepsRow j id i (k ∷ ks) =
    if_both (All (KeepsRow j)) ((i == id) || (k == id))
      (set_record-KeepsRow j i k false, clear_pairs-KeepsRow j id i ks)
      (clear_pairs-KeepsRow j id i ks)

clear_rows-KeepsRow : (j id : ℕ) (rows : List ℕ) → All (KeepsRow j) (clear_rows id rows)
unfolding clear_rows
clear_rows-KeepsRow j id [] = tt
clear_rows-KeepsRow j id (i ∷ rows) =
    All-append (KeepsRow j) (clear_pairs id i (indices qlen 1)) (clear_rows id rows)
      (clear_pairs-KeepsRow j id i (indices qlen 1)) (clear_rows-KeepsRow j id rows)

-- The sections of a process of another row.
pub body-KeepsRow :
    (j ui : ℕ) (section : Section) → ui ≢ j → IsAllowed ui section → All (KeepsRow j) (body section)
unfolding broadcast_section tell_section take_section give_section exit_section
body-KeepsRow j ui (accepting sock addr port) d h = absurd h
body-KeepsRow j ui (noting_pid i pid) d h = absurd h
body-KeepsRow j ui (broadcasting msg) d h =
    All-map j (deliver msg) (deliver-KeepsRow j msg) (indices qlen 0)
body-KeepsRow j ui (telling target msg) d h =
    (on_row-KeepsRow j target (put_message msg) (put_message-identity msg), ((λ m v. refl), tt))
body-KeepsRow j ui (taking sender u) d h = (set_record-KeepsRow j (suc u) sender false, tt)
body-KeepsRow j ui (giving receiver u) d h = (set_record-KeepsRow j receiver (suc u) true, tt)
body-KeepsRow j ui (leaving u) d h =
    All-append (KeepsRow j) (clear_rows (suc u) (indices qlen 1)) (clear_valid u ∷ [])
      (clear_rows-KeepsRow j (suc u) (indices qlen 1))
      ((λ m v. row-other j u _ m (λ e. d (sym h ∙ e))), tt)

pub noting_pid-KeepsRow : (j ui pid : ℕ) → ui ≢ j → All (KeepsRow j) (body (noting_pid ui pid))
unfolding pid_section
noting_pid-KeepsRow j ui pid d = ((λ m v. row-other j ui _ m d), tt)

-- The writes of main to another row.
pub fill_writes-KeepsRow :
    (j ui sock : ℕ) (addr : Bytes) (port : ℕ)
    → ui ≢ j
    → All (KeepsRow j) (fill_writes ui sock addr port)
unfolding fill_writes
fill_writes-KeepsRow j ui sock addr port d = (
  (λ m v. row-other j ui _ m d),
  (
    (λ m v. row-other j ui _ m d),
    (
      (λ m v. row-other j ui _ m d),
      (
        (λ m v. row-other j ui _ m d),
        (
          (λ m v. row-other j ui _ m d),
          (
            (λ m v. row-other j ui _ m d),
            ((λ m v. row-other j ui _ m d), ((λ m v. row-other j ui _ m d), tt)),
          ),
        ),
      ),
    ),
  ),
)

-- The handler empties a mailbox.
pub real_broadcast_msg-SameRow : (j pid : ℕ) (m : Memory) → SameRow j m (real_broadcast_msg m pid).1
unfolding real_broadcast_msg print_messages
real_broadcast_msg-SameRow j pid m = elim (Option-cases (own_row m pid)) [
  | inl e ↦ rw (real_broadcast_msg, e) refl
  | inr (i, e) ↦ rw (real_broadcast_msg, e) (row-write j i _ m refl)
]
