-- ===== src/Rwg/Users/Laws.antt =====
-- What the loops over user[30] find and send.
use mathlib.Core.List.{reverse, reverse-cons}
use network_programming_nctu.Base.{
  ℕ, zero, suc, ◌<◌, ◌≡◌, ◌≢◌, ◌↔◌, inl, inr, refl, sym, ◌∙◌, ap, true, false, ◌&&◌, Bool-cases,
  Option-cases, List, ◌∷◌, ◌++◌, append_assoc, map, keep, Bytes, same, same_iff, ℤ, pos, negsuc,
  pred_int, ◌==ℤ◌, ==ℤ_iff, first_from, indices, first_from_hit, first_from_miss, arith,
}
use network_programming_nctu.Rwg.State.{User, World, Event, wrote, next, qlen}
use network_programming_nctu.Rwg.Users.{
  check_id_exist, check_name_exist, broadcast_from, broadcast_msg,
}

-- One write for each row that is in use, in the order of the rows.
abbrev pub deliveries : ℕ → ℕ → (ℕ → User) → Bytes → List Event
deliveries n i users msg =
    map (λ k. wrote (users k).sock msg) (keep (λ k. (users k).valid) (indices n i))

abbrev pub with_trace : World → List Event → World
with_trace w t = record w { trace = t }

broadcast_from_lem :
    (n i : ℕ) (msg : Bytes) (w : World)
    → broadcast_from n i msg w
      ≡ next tt (with_trace w (reverse (deliveries n i w.users msg) ++ w.trace))
unfolding broadcast_from
broadcast_from_lem zero i msg w = refl
broadcast_from_lem (suc n) i msg w = elim (Bool-cases (w.users i).valid) [
  | inl h ↦
      rw (h, broadcast_from_lem n (suc i) msg (with_trace w (wrote (w.users i).sock msg ∷ w.trace)))
        (ap (λ t. next tt (with_trace w t))
          (sym (
            ap (λ x. x ++ w.trace) (reverse-cons _ (deliveries n (suc i) w.users msg))
            ∙ append_assoc (reverse (deliveries n (suc i) w.users msg)) _ w.trace)))
  | inr h ↦ rw (h, broadcast_from_lem n (suc i) msg w)
]

-- A broadcast writes the message once to each user who is there, and changes nothing else.
pub broadcast_msg_lem :
    (msg : Bytes) (w : World)
    → broadcast_msg msg w
      ≡ next tt (with_trace w (reverse (deliveries qlen 0 w.users msg) ++ w.trace))
unfolding broadcast_msg
broadcast_msg_lem msg w = broadcast_from_lem qlen 0 msg w

pos-pred_int : (i : ℕ) (id : ℤ) → pos i ≡ pred_int id → id ≡ pos (suc i)
unfolding pred_int
pos-pred_int i (pos zero) h = cc
pos-pred_int i (pos (suc n)) h = ground arith
pos-pred_int i (negsuc n) h = cc

pub check_id_exist_sound :
    (w : World) (id : ℤ)
    → check_id_exist w id ≡ true
    → (k : ℕ) × (id ≡ pos (suc k)) × (k < qlen) × ((w.users k).valid ≡ true)
unfolding check_id_exist
check_id_exist_sound w id h =
    elim (Option-cases (first_from qlen 0 (λ i. (w.users i).valid && (pos i ==ℤ pred_int id)))) [
      | inl e ↦ cc (rw e at h)
      | inr (k, e) ↦
          let (t, _, b) = first_from_hit qlen 0 _ k e in
          (
            k,
            pos-pred_int k id ((==ℤ_iff (pos k) (pred_int id)).0 (ground arith)),
            omega arith,
            ground arith,
          )
    ]

check_id_exist_complete :
    (w : World) (k : ℕ)
    → k < qlen
    → (w.users k).valid ≡ true
    → check_id_exist w (pos (suc k)) ≡ true
unfolding check_id_exist
check_id_exist_complete w k b t =
    elim (Option-cases
      (first_from qlen 0 (λ i. (w.users i).valid && (pos i ==ℤ pred_int (pos (suc k)))))) [
        | inl e ↦
            let miss =
              first_from_miss qlen 0 (λ i. (w.users i).valid && (pos i ==ℤ pred_int (pos (suc k))))
                k e (omega arith) (omega arith) in
            cc (
              rw (t, (==ℤ_iff (pos k) (pred_int (pos (suc k)))).1 (unfold pred_int in refl)) at
                miss)
        | inr (j, e) ↦ rw e
      ]

-- A user exists exactly if the id is that of a row in use.
pub check_id_exist_iff :
    (w : World) (id : ℤ)
    → (check_id_exist w id ≡ true)
      ↔ ((k : ℕ) × (id ≡ pos (suc k)) × (k < qlen) × ((w.users k).valid ≡ true))
check_id_exist_iff w id =
    (check_id_exist_sound w id, λ (k, e, b, t). rw e (check_id_exist_complete w k b t))

-- A name that does not exist is no user's.
pub check_name_exist_free :
    (w : World) (name : Bytes) (k : ℕ)
    → check_name_exist w name ≡ false
    → k < qlen
    → (w.users k).valid ≡ true
    → (w.users k).name ≢ name
unfolding check_name_exist
check_name_exist_free w name k h b t same_name =
    elim (Option-cases (first_from qlen 0 (λ i. (w.users i).valid && same (w.users i).name name))) [
      | inl e ↦
          let miss =
            first_from_miss qlen 0 (λ i. (w.users i).valid && same (w.users i).name name) k e
              (omega arith) (omega arith) in
          cc (rw (t, (same_iff (w.users k).name name).1 same_name) at miss)
      | inr (j, e) ↦ cc (rw e at h)
    ]
