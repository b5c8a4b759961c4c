-- ===== src/Rwg/Builtins/Laws.antt =====
-- setenv and printenv.
use network_programming_nctu.Base.{
  ℕ, ◌<◌, ◌≡◌, refl, ◌∙◌, inl, inr, true, Bool-cases, some, List, [], ◌∷◌, ◌++◌, Bytes, codes, same,
  same_iff, if◌then◌else◌, ◌==◌, ==_refl, length, length-append, arith,
}
use network_programming_nctu.Rwg.State.{World, wrote, next, set_env, get_env}
use network_programming_nctu.Rwg.Builtins.{
  print_value, print_variable, printenv, set_variable, set_given, setenv,
}

same_refl : (s : Bytes) → same s s ≡ true
same_refl s = (same_iff s s).1 refl

get_env-set_env :
    (key v : Bytes) (m : List (Bytes × Bytes)) → get_env key (set_env key v m) ≡ some v
unfolding get_env set_env
get_env-set_env key v [] = rw (same_refl key) refl
get_env-set_env key v ((k, x) ∷ m) = elim (Bool-cases (same k key)) [
  | inl e ↦ rw (e, get_env, same_refl key) refl
  | inr e ↦ rw (e, get_env, e) (get_env-set_env key v m)
]

print_variable_lem :
    (ui : ℕ) (key v : Bytes) (w : World)
    → get_env key w.env ≡ some v
    → length v < 199
    → print_variable ui (some key) w
      ≡ next tt (record w { trace = wrote (w.users ui).sock (v ++ codes "\n") ∷ w.trace })
unfolding print_variable print_value
print_variable_lem ui key v w e h =
    rw (e, print_value) (ground (arith, length-append v (codes "\n")))

-- The state after `setenv key v`.
abbrev pub after_setenv : ℕ → Bytes → Bytes → World → World
after_setenv ui key v w = record w {
  users = λ j. if j == ui then record (w.users ui) { path = v } else w.users j;
  env = set_env key v w.env;
}

-- `setenv key v`, with v shorter than 199, sets the variable, and `printenv key` writes v to the
-- user; but v also becomes the user's PATH, whatever the key.
pub printenv-setenv :
    (ui : ℕ) (key v : Bytes) (w : World)
    → length v < 199
    → (setenv ui (codes "setenv" ∷ key ∷ v ∷ []) w ≡ next tt (after_setenv ui key v w))
      × (printenv ui (codes "printenv" ∷ key ∷ []) (after_setenv ui key v w)
          ≡ next tt (record (after_setenv ui key v w) {
            trace = wrote (w.users ui).sock (v ++ codes "\n") ∷ w.trace;
          }))
      × (((after_setenv ui key v w).users ui).path ≡ v)
unfolding setenv set_given set_variable printenv
printenv-setenv ui key v w h = (
  ground arith,
  print_variable_lem ui key v (after_setenv ui key v w) (get_env-set_env key v w.env) h
      ∙ rw (==_refl ui) refl,
  rw (==_refl ui) refl,
)
