-- ===== src/Rwg/Invariant/Updates.antt =====
-- How single assignments keep the invariant.
use network_programming_nctu.Base.{
  ℕ, suc, ◌<◌, ◌≡◌, ◌≢◌, refl, sym, ◌∙◌, ap, subst, ◌⊎◌, inl, inr, Bool, true, false, ◌&&◌, ◌==◌,
  ==_iff, if◌then◌else◌, Bool-cases, arith,
}
use network_programming_nctu.Rwg.State.{User, World, qlen}
use network_programming_nctu.Rwg.Users.{no_name}
use network_programming_nctu.Rwg.Invariant.{IsLive, IsDistinct, Inv, IsActive}

abbrev pub with_user : World → ℕ → User → World
with_user w i u = record w { users = λ j. if j == i then u else w.users j }

-- A field that an assignment to a row leaves alone.
pub field_same {ℓ} :
    {B : Type ℓ} (g : User → B) (w : World) (i : ℕ) (u : User) (j : ℕ)
    → g u ≡ g (w.users i)
    → g (if j == i then u else w.users j) ≡ g (w.users j)
field_same g w i u j h = elim (Bool-cases (j == i)) [
  | inl e ↦ rw e (h ∙ ap (λ k. g (w.users k)) (sym ((==_iff j i).0 e)))
  | inr e ↦ rw e
]

pub IsLive-mono :
    (w v : World)
    → ((k : ℕ) → k < qlen → (w.users k).valid ≡ true → (v.users k).valid ≡ true)
    → (id : ℕ) → IsLive w id
    → IsLive v id
IsLive-mono w v h id (k, e, b, t) = (k, e, b, h k b t)

-- The invariant speaks of these parts of the state only.
pub Inv-same :
    (w v : World)
    → ((k : ℕ) → (v.users k).valid ≡ (w.users k).valid)
    → ((k : ℕ) → (v.users k).name ≡ (w.users k).name)
    → ((i j : ℕ) → v.name_pipe_record i j ≡ true → w.name_pipe_record i j ≡ true)
    → ((k : ℕ) → IsDistinct (v.users k).num_pipe_vec)
    → Inv w
    → Inv v
Inv-same w v hv hn hr hp inv = record {
  live = λ i j h.
      let (a, b) = inv.live i j (hr i j h) in
      let m = λ (k : ℕ) (_ : k < qlen) (t : (w.users k).valid ≡ true). hv k ∙ t in
      (IsLive-mono w v m i a, IsLive-mono w v m j b);
  names = λ i j bi bj vi vj e.
      elim (inv.names i j bi bj (sym (hv i) ∙ vi) (sym (hv j) ∙ vj) (sym (hn i) ∙ e ∙ hn j)) [
        | inl p ↦ inl p
        | inr q ↦ inr (hn i ∙ q)
      ];
  pipes = hp;
}

-- A row whose flag and name stay, and whose pipes are told apart.
pub with_user-Inv :
    (w : World) (i : ℕ) (u : User)
    → u.valid ≡ (w.users i).valid
    → u.name ≡ (w.users i).name
    → IsDistinct u.num_pipe_vec
    → Inv w
    → Inv (with_user w i u)
with_user-Inv w i u hv hn hp inv =
    Inv-same w (with_user w i u) (λ k. field_same (λ x. x.valid) w i u k hv)
      (λ k. field_same (λ x. x.name) w i u k hn) (λ a b h. h)
      (λ k. elim (Bool-cases (k == i)) [ inl e ↦ rw e hp | inr e ↦ rw e (inv.pipes k) ]) inv

pub with_user-IsActive :
    (w : World) (i : ℕ) (u : User) (ui : ℕ)
    → u.valid ≡ (w.users i).valid
    → IsActive ui w
    → IsActive ui (with_user w i u)
with_user-IsActive w i u ui hv (b, t) = (b, field_same (λ x. x.valid) w i u ui hv ∙ t)

abbrev pub with_record : World → ℕ → ℕ → Bool → World
with_record w i j v = record w {
  name_pipe_record = λ a b. if (a == i) && (b == j) then v else w.name_pipe_record a b;
}

pub clear_entry-Inv : (w : World) (i j : ℕ) → Inv w → Inv (with_record w i j false)
clear_entry-Inv w i j inv =
    Inv-same w (with_record w i j false) (λ _. refl) (λ _. refl) (λ a b h. ground arith) inv.pipes
      inv

pub set_entry-Inv :
    (w : World) (i j : ℕ) → IsLive w i → IsLive w j → Inv w → Inv (with_record w i j true)
set_entry-Inv w i j hi hj inv = record {
  live = λ a b h. elim (Bool-cases ((a == i) && (b == j))) [
    | inl e ↦
        let ea : a ≡ i = ground arith in
        let eb : b ≡ j = ground arith in
        (subst (IsLive w) (sym ea) hi, subst (IsLive w) (sym eb) hj)
    | inr e ↦ inv.live a b (rw e at h)
  ];
  names = inv.names;
  pipes = inv.pipes;
}

-- A row that changes its name, or comes into use, under a name that is no other user's or is
-- "(no name)".
pub rename-Inv :
    (w : World) (i : ℕ) (u : User)
    → ((w.users i).valid ≡ true → u.valid ≡ true)
    → IsDistinct u.num_pipe_vec
    → ((k : ℕ)
        → k < qlen
        → (w.users k).valid ≡ true
        → ((w.users k).name ≢ u.name) ⊎ (u.name ≡ no_name))
    → Inv w
    → Inv (with_user w i u)
rename-Inv w i u hv hp fresh inv = record {
  live = λ a b h.
      let (x, y) = inv.live a b h in
      (IsLive-mono w (with_user w i u) stays a x, IsLive-mono w (with_user w i u) stays b y);
  names = λ a b ba bb va vb e. elim (Bool-cases (a == i)) [
    | inl ha ↦ elim (Bool-cases (b == i)) [
      | inl hb ↦ inl (ground arith)
      | inr hb ↦ elim (fresh b bb (rw hb at vb)) [
        | inl ne ↦ absurd (ne (sym (rw (ha, hb) at e)))
        | inr q ↦ inr (rw ha q)
      ]
    ]
    | inr ha ↦ elim (Bool-cases (b == i)) [
      | inl hb ↦ elim (fresh a ba (rw ha at va)) [
        | inl ne ↦ absurd (ne (rw (ha, hb) at e))
        | inr q ↦ inr (e ∙ rw hb q)
      ]
      | inr hb ↦ elim (inv.names a b ba bb (rw ha at va) (rw hb at vb) (rw (ha, hb) at e)) [
        | inl q ↦ inl q
        | inr q ↦ inr (rw ha q)
      ]
    ]
  ];
  pipes = λ k. elim (Bool-cases (k == i)) [ inl e ↦ rw e hp | inr e ↦ rw e (inv.pipes k) ];
}
  where
    stays : (k : ℕ) → k < qlen → (w.users k).valid ≡ true → ((with_user w i u).users k).valid ≡ true
    stays k b t = elim (Bool-cases (k == i)) [
      | inl e ↦ rw e (hv (ap (λ x. (w.users x).valid) (sym ((==_iff k i).0 e)) ∙ t))
      | inr e ↦ rw e t
    ]

-- A user who leaves, whose entries of the record are cleared.
pub leave-Inv :
    (w : World) (i : ℕ) (u : User) (r : ℕ → ℕ → Bool)
    → u.valid ≡ false
    → IsDistinct u.num_pipe_vec
    → ((a b : ℕ)
        → IsLive w a
        → IsLive w b
        → r a b ≡ true
        → (w.name_pipe_record a b ≡ true) × (a ≢ suc i) × (b ≢ suc i))
    → ((a b : ℕ) → r a b ≡ true → w.name_pipe_record a b ≡ true)
    → Inv w
    → Inv (record (with_user w i u) { name_pipe_record = r })
leave-Inv w i u r off hp gone hr inv = record {
  live = λ a b h.
      let (x, y) = inv.live a b (hr a b h) in
      let (_, na, nb) = gone a b x y h in (stays a na x, stays b nb y);
  names = λ a b ba bb va vb e.
      let ea : (a == i) ≡ false = away a va in
      let eb : (b == i) ≡ false = away b vb in
      elim (inv.names a b ba bb (rw ea at va) (rw eb at vb) (rw (ea, eb) at e)) [
        | inl q ↦ inl q
        | inr q ↦ inr (rw ea q)
      ];
  pipes = λ k. elim (Bool-cases (k == i)) [ inl e ↦ rw e hp | inr e ↦ rw e (inv.pipes k) ];
}
  where
    away : (a : ℕ) → ((with_user w i u).users a).valid ≡ true → (a == i) ≡ false
    away a va = elim (Bool-cases (a == i)) [ inl e ↦ cc (rw e at va) | inr e ↦ e ]

    stays :
        (id : ℕ)
        → id ≢ suc i
        → IsLive w id
        → IsLive (record (with_user w i u) { name_pipe_record = r }) id
    stays id ne (k, e, b, t) = (
      k,
      e,
      b,
      elim (Bool-cases (k == i)) [
        | inl x ↦ absurd (ne (e ∙ ap suc ((==_iff k i).0 x)))
        | inr x ↦ rw x t
      ],
    )
