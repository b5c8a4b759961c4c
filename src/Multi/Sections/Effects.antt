-- ===== src/Multi/Sections/Effects.antt =====
-- What a section leaves, run in one go.
use network_programming_nctu.Base.{
  ℕ, zero, suc, ◌+◌, ◌<◌, ◌≤◌, ◌≡◌, ◌≢◌, refl, sym, ap, ◌∙◌, inl, inr, true, false, not, ◌==◌,
  Bool-cases, if◌then◌else◌, some, ==_refl, subst, ◌∷◌, Bytes, arith, length, map, indices, ◌⊎◌,
  first_from_first, first_from_nowhere,
}
use network_programming_nctu.Strings.{format_line}
use network_programming_nctu.Statements.{M, next, stop, fault, unset, overrun, ◌>>◌, pure}
use network_programming_nctu.Statements.Ends.{bind_next}
use network_programming_nctu.Multi.Memory.{qlen, User, Memory, set_row, kill}
use network_programming_nctu.Multi.Mailbox.{slots, slot_size, posted, put_message}
use network_programming_nctu.Multi.Sections.{
  on_row, deliver, broadcast_section, find_space, enter, fill_row, accept_section, run_all,
}

put_message_lem :
    (msg text : Bytes) (u : User)
    → format_line msg ≡ some text
    → length text < slot_size
    → u.msg_count < slots
    → put_message msg u ≡ next tt (posted text u)
unfolding put_message
put_message_lem msg text u f a b = rw f (ground arith)

-- A mailbox with ten messages takes no further one: it is written behind the array.
pub put_message_full :
    (msg text : Bytes) (u : User)
    → format_line msg ≡ some text
    → slots ≤ u.msg_count
    → put_message msg u ≡ fault overrun
unfolding put_message
put_message_full msg text u f h = rw f (ground arith)

on_row_lem :
    (i : ℕ) (s : M User (Unit {0})) (m : Memory) (u : User)
    → s (m.users i) ≡ next tt u
    → on_row i s m ≡ set_row i u m
on_row_lem i s m u e =
    ap (λ x. elim x [ next t v ↦ set_row i v m | stop r v ↦ stop r m | fault f ↦ fault f ]) e

deliver_entered :
    (msg : Bytes) (i : ℕ) (m : Memory)
    → (m.users i).valid ≡ true
    → deliver msg i m ≡ (on_row i (put_message msg) >> kill (m.users i).pid) m
unfolding deliver
deliver_entered msg i m v = rw v refl

deliver_valid :
    (msg text : Bytes) (i : ℕ) (m : Memory)
    → format_line msg ≡ some text
    → length text < slot_size
    → (m.users i).valid ≡ true
    → (m.users i).msg_count < slots
    → deliver msg i m
      ≡ next tt (record {
        users = λ j. if j == i then posted text (m.users i) else m.users j;
        signalled = (m.users i).pid ∷ m.signalled;
      })
deliver_valid msg text i m f a v b =
    deliver_entered msg i m v
    ∙ bind_next (on_row i (put_message msg)) (λ _. kill (m.users i).pid) m _ tt
        (on_row_lem i (put_message msg) m _ (put_message_lem msg text (m.users i) f a b))

deliver_free :
    (msg : Bytes) (i : ℕ) (m : Memory) → (m.users i).valid ≡ false → deliver msg i m ≡ next tt m
unfolding deliver
deliver_free msg i m v = rw v refl

-- What a broadcast does to row `j`: a row in use gets the message, the others stay.
abbrev pub received : Bytes → User → User
received text u = if u.valid then posted text u else u

delivery :
    (msg text : Bytes) (i : ℕ) (m : Memory)
    → format_line msg ≡ some text
    → length text < slot_size
    → ((m.users i).valid ≡ true → (m.users i).msg_count < slots)
    → (m' : Memory) × (deliver msg i m ≡ next tt m')
      × (m'.users i ≡ received text (m.users i))
      × ((j : ℕ) → j ≢ i → m'.users j ≡ m.users j)
delivery msg text i m f a room = elim (Bool-cases (m.users i).valid) [
  | inl v ↦ (
    record {
      users = λ j. if j == i then posted text (m.users i) else m.users j;
      signalled = (m.users i).pid ∷ m.signalled;
    },
    deliver_valid msg text i m f a v (room v),
    ap (λ b. if b then posted text (m.users i) else m.users i) (==_refl i)
        ∙ sym (ap (λ b. if b then posted text (m.users i) else m.users i) v),
    λ j n. ground arith,
  )
  | inr v ↦ (m, deliver_free msg i m v, rw v refl, λ j n. refl)
]

le-cases : (i j : ℕ) → i ≤ j → (i ≡ j) ⊎ (suc i ≤ j)
le-cases i j h = ground arith

deliveries :
    (msg text : Bytes) (n i : ℕ) (m : Memory)
    → format_line msg ≡ some text
    → length text < slot_size
    → ((j : ℕ) → (m.users j).valid ≡ true → i ≤ j → j < i + n → (m.users j).msg_count < slots)
    → (m' : Memory) × (run_all (map (deliver msg) (indices n i)) m ≡ next tt m')
      × ((j : ℕ) → i ≤ j → j < i + n → m'.users j ≡ received text (m.users j))
      × ((j : ℕ) → (j < i) ⊎ (i + n ≤ j) → m'.users j ≡ m.users j)
unfolding run_all
deliveries msg text zero i m f a room = (m, refl, λ j h k. absurd (omega arith), λ j h. refl)
deliveries msg text (suc n) i m f a room =
    let (m1, one, here, others) =
      delivery msg text i m f a (λ v. room i v (omega arith) (omega arith)) in
    let (m', run, got, kept) = deliveries msg text n (suc i) m1 f a (λ j v h k.
      subst (λ u. u.msg_count < slots) (sym (others j (omega arith)))
        (room j (ap User.valid (sym (others j (omega arith))) ∙ v) (omega arith) (omega arith))) in
    (
      m',
      bind_next (deliver msg i) (λ _. run_all (map (deliver msg) (indices n (suc i)))) m m1 tt one
          ∙ run,
      λ j h k. elim (le-cases i j h) [
        | inl e ↦
            kept j (inl (omega arith))
            ∙ ap m1.users (sym e)
            ∙ here
            ∙ ap (λ x. received text (m.users x)) e
        | inr l ↦ got j l (omega arith) ∙ ap (received text) (others j (omega arith))
      ],
      λ j h.
          kept j (elim h [ inl l ↦ inl (omega arith) | inr g ↦ inr (omega arith) ])
          ∙ others j (elim h [ inl l ↦ omega arith | inr g ↦ omega arith ]),
    )

-- A message that sprintf, whose format it is, makes a text of which is shorter than a slot (there is
-- none for a message with a directive that reads an argument), sent where each user in use has a free
-- slot: every row that is in use gets the text, with the count one higher, and no other row of the 30 or behind them changes.
pub broadcast_reaches :
    (msg text : Bytes) (m : Memory)
    → format_line msg ≡ some text
    → length text < slot_size
    → ((j : ℕ) → (m.users j).valid ≡ true → j < qlen → (m.users j).msg_count < slots)
    → (m' : Memory) × (run_all (broadcast_section msg) m ≡ next tt m')
      × ((j : ℕ) → j < qlen → m'.users j ≡ received text (m.users j))
      × ((j : ℕ) → qlen ≤ j → m'.users j ≡ m.users j)
unfolding broadcast_section
broadcast_reaches msg text m f a room =
    let (m', run, got, kept) = deliveries msg text qlen 0 m f a (λ j v h k. room j v k) in
    (m', run, λ j h. got j (omega arith) h, λ j h. kept j (inr h))

-- A new client gets the lowest free row; the pid and the record of user pipes that its last owner
-- left stay in it, and so does its id.
pub accept_section_lem :
    (sock : ℕ) (addr : Bytes) (port i : ℕ) (m : Memory)
    → i < qlen
    → (m.users i).valid ≡ false
    → ((j : ℕ) → j < i → (m.users j).valid ≡ true)
    → run_all (accept_section sock addr port) m ≡ set_row i (enter (m.users i) sock addr port) m
unfolding run_all accept_section fill_row find_space
accept_section_lem sock addr port i m h f below =
    ap (λ o. (fill_row sock addr port o >> pure tt) m)
      (first_from_first qlen 0 (λ j. not (m.users j).valid) i (omega arith) (omega arith) (ap not f)
        (λ j a b. ap not (below j b)))

-- With all 30 rows in use the index of the new client is never set.
pub accept_section_full :
    (sock : ℕ) (addr : Bytes) (port : ℕ) (m : Memory)
    → ((j : ℕ) → j < qlen → (m.users j).valid ≡ true)
    → run_all (accept_section sock addr port) m ≡ fault unset
unfolding run_all accept_section fill_row find_space
accept_section_full sock addr port m full =
    ap (λ o. (fill_row sock addr port o >> pure tt) m)
      (first_from_nowhere qlen 0 (λ j. not (m.users j).valid) (λ j a b. ap not (full j b)))
