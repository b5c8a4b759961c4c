-- ===== src/Socks/Firewall.antt =====
-- SockSession::firewall: the rules of socks.conf, a line each.
pub mod Laws
use network_programming_nctu.Base.{
  ℕ, zero, suc, ◌-◌, Bool, true, false, ◌&&◌, ◌||◌, List, [], ◌∷◌, ◌++◌, Option, none, some, Bytes,
  codes, same, ◌==◌, leb, if◌then◌else◌, length, take, get_elem?,
}

-- `s.substr(0, s.find(c))`: the whole text where `c` does not occur.
unfoldable pub before : ℕ → Bytes → Bytes
before c [] = []
before c (b ∷ s) = let rest = b ∷ before c s in if b == c then [] else rest

abbrev is_white : ℕ → Bool
is_white c = c == 32 || (leb 9 c && leb c 13)

abbrev push_word : Bytes → List Bytes → List Bytes
push_word [] ws = ws
push_word (c ∷ w) ws = (c ∷ w) ∷ ws

-- `while (iss >> line) socks_vec.push_back(line);`
unfoldable pub words_from : Bytes → Bytes → List Bytes
words_from cur [] = push_word cur []
words_from cur (c ∷ s) =
    let closed = push_word cur (words_from [] s) in
    let longer = words_from (cur ++ c ∷ []) s in if is_white c then closed else longer

unfoldable pub rule_words : Bytes → List Bytes
unfolding words_from
rule_words line = words_from [] (before b'#' line)

-- A line permits, or does not, or reads behind the end of socks_vec.
pub data Verdict : Type 0 where
  permits passes : Verdict
  out_of_range : Verdict

unfoldable pub matches_pattern : Bytes → Bytes → Bool
matches_pattern pattern ip =
    let prefix = before b'*' pattern in same (take (length prefix) ip) prefix

unfoldable pub check_words : Bytes → Bytes → List Bytes → Verdict
check_words cd ip [] = out_of_range
check_words cd ip (action ∷ []) = if same action (codes "permit") then out_of_range else passes
check_words cd ip (action ∷ mode ∷ []) =
    if same action (codes "permit") && same mode cd then out_of_range else passes
check_words cd ip (action ∷ mode ∷ pattern ∷ rest) =
    if same action (codes "permit") && same mode cd
    then (if matches_pattern pattern ip then permits else passes)
    else passes

-- The result of firewall: 1, -1, or no result.
pub data Decision : Type 0 where
  accepted denied undefined : Decision

unfoldable pub check_lines : Bytes → Bytes → List Bytes → Decision
check_lines cd ip [] = denied
check_lines cd ip (line ∷ lines) = elim (check_words cd ip (rule_words line)) [
  | permits ↦ accepted
  | passes ↦ check_lines cd ip lines
  | out_of_range ↦ undefined
]

-- `none`: there is no socks.conf.
unfoldable pub firewall : Option (List Bytes) → Bytes → Bytes → Decision
firewall none cd ip = denied
firewall (some lines) cd ip = check_lines cd ip lines
