-- ===== src/Rwg/Shell/Laws.antt =====
-- A line without a word.
use mathlib.Core.Option
use network_programming_nctu.Base.{
  ℕ, zero, suc, ◌≡◌, refl, ap, ◌∙◌, false, some, [], ◌∷◌, ◌++◌, Bytes, codes, ℤ,
}
use network_programming_nctu.Strings.{scan_tokens, tokens, format_line}
use network_programming_nctu.Rwg.State.{
  World, System, next, fault, null_pointer, bad_format, set_env,
}
use network_programming_nctu.Statements.Ends.{bind_next}
use network_programming_nctu.Rwg.Parse.{parse_line}
use network_programming_nctu.Rwg.Shell.{
  clean_line, count_down, run_line, or_fail, read_line, line_or_return, shell_body, outcome,
  crashed, npshell,
}

-- `n` spaces.
abbrev pub spaces : ℕ → Bytes
spaces zero = []
spaces (suc n) = 32 ∷ spaces n

clean_line-spaces : (n : ℕ) (rest : Bytes) → clean_line (spaces n ++ 13 ∷ rest) ≡ some (spaces n)
unfolding clean_line
clean_line-spaces zero rest = refl
clean_line-spaces (suc n) rest = ap (Option.map (◌∷◌ 32)) (clean_line-spaces n rest)

format_line-spaces : (n : ℕ) → format_line (32 ∷ spaces n) ≡ some (32 ∷ spaces n)
unfolding format_line
format_line-spaces zero = refl
format_line-spaces (suc n) = rw (format_line-spaces n) refl

scan_tokens-spaces : (n : ℕ) → scan_tokens 32 [] (spaces n) ≡ []
unfolding scan_tokens
scan_tokens-spaces zero = refl
scan_tokens-spaces (suc n) = scan_tokens-spaces n

tokens-spaces : (n : ℕ) → tokens 32 (spaces n) ≡ []
unfolding tokens
tokens-spaces n = scan_tokens-spaces n

module _ (sys : System) (ui : ℕ) (count : ℤ) where
  run_line-spaces :
      (n : ℕ) (command : Bytes) (w : World)
      → run_line sys ui count (spaces n) command w ≡ fault null_pointer
  unfolding run_line count_down parse_line
  run_line-spaces n command w = rw (tokens-spaces n) refl

  read_line-spaces :
      (n : ℕ) (rest : Bytes) (w : World)
      → (w.users ui).batch_flag ≡ false
      → read_line ui (spaces n ++ 13 ∷ rest) w ≡ next (spaces n) w
  unfolding read_line
  read_line-spaces n rest w flag = rw (flag, clean_line-spaces n rest) refl

  -- A line of nothing but spaces, at least one: npshell compares a NULL pointer with "tell".
  pub npshell-spaces :
      (n : ℕ) (rest : Bytes) (w : World)
      → (w.users ui).batch_flag ≡ false
      → npshell sys ui count (spaces (suc n) ++ 13 ∷ rest) w ≡ crashed null_pointer
  unfolding npshell shell_body line_or_return
  npshell-spaces n rest w flag =
      let v = record w { env = set_env (codes "PATH") (w.users ui).path w.env } in
      ap (outcome count) (
        bind_next (read_line ui (spaces (suc n) ++ 13 ∷ rest)) _ v v (spaces (suc n))
          (read_line-spaces (suc n) rest v flag)
        ∙ bind_next (or_fail (format_line (spaces (suc n))) bad_format) _ v v (spaces (suc n))
            (rw (format_line-spaces n) refl)
        ∙ run_line-spaces (suc n) (spaces (suc n)) v)
