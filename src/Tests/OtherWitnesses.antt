-- ===== src/Tests/OtherWitnesses.antt =====
-- The theorems on the strings, the SOCKS server and the filters at concrete inputs.
use network_programming_nctu.Base.{
  ◌≡◌, ◌≤◌, ◌<◌, inr, length, refl, true, false, List, [], ◌∷◌, codes, Bytes, some, arith, All,
}
use network_programming_nctu.Socks.Request.{connect_request}
use network_programming_nctu.Socks.Firewall.{before, words_from, rule_words}
use network_programming_nctu.Socks.Relay.{
  Completion, Side, client, server, got, took, read_failed, run, fresh,
}
use network_programming_nctu.Socks.Relay.Laws.{partial_write_repeats}
use network_programming_nctu.Socks.Session.{Network}
use network_programming_nctu.Filters.Stdio.{number_chars}
use network_programming_nctu.Filters.Stdio.Laws.{IsPlain, number_chars-number}
use network_programming_nctu.Filters.{
  number, lines_from, removetag0, ends, TagState, tag_loop, tag_round, tag_char,
}

abbrev rule : Bytes
rule = codes "permit c 140.*"

blank_lem : rule_words (codes "# end") ≡ []
unfolding rule_words words_from before
blank_lem = refl

abbrev net : Network
net = record {
  resolves = λ _. true;
  reachable = λ _ _. true;
  send_ok = true;
  accept_ok = true;
  second_send_ok = true;
  held = λ _ b. b;
  bound_port = 4660;
}

abbrev asked : Bytes
asked = connect_request 80 140 113 1 1

abbrev completions : List (Side × Completion)
completions =
    (client, got (codes "GET"))
    ∷ (server, read_failed)
    ∷ (client, took 3)
    ∷ (client, read_failed)
    ∷ []

partial_write_repeats_example :
    (run ((client, got (codes "abc")) ∷ (client, took 2) ∷ (client, took 1) ∷ []) fresh).inward.sent
    ≡ codes "aba"
partial_write_repeats_example = partial_write_repeats (codes "abc") 2 fresh refl (omega arith)

abbrev short_page : Bytes
short_page = codes "<b>x"

abbrev short_end : TagState
short_end = record { in_tag = false; err_tag = false; tag = []; out = codes "x"; err = [] }

short_page_lem : removetag0 short_page ≡ ends short_end
unfolding removetag0 tag_loop tag_round tag_char
short_page_lem = refl

-- The second of two lines lacks its newline.
abbrev two_lines : Bytes
two_lines = codes "a\nb"

two_lines-IsPlain : All IsPlain two_lines
two_lines-IsPlain = ground arith

two_lines_lem : length (lines_from [] two_lines) ≤ 9
unfolding lines_from
two_lines_lem = omega arith

few_lines : length (lines_from [] two_lines) < 2147483647
unfolding lines_from
few_lines = omega arith

number_chars-number_example : number_chars 1 [] two_lines ≡ some (number two_lines)
number_chars-number_example =
    number_chars-number two_lines two_lines-IsPlain few_lines (inr two_lines_lem)
