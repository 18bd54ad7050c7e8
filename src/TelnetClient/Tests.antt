-- ===== src/TelnetClient/Tests.antt =====
-- Texts and answers of a host for 11-client/main.c.
use otus_c.Common.{ℕ, ◌-◌, ◌≡◌, refl, arith, true, false, some}
use otus_c.Common.{List, [], ◌∷◌, ◌++◌, length, take, drop, text}
use otus_c.TelnetClient.{string_has_substring, string_to_find, string_to_find2, bytes, Network}
use otus_c.TelnetClient.{main, get_ip_addr_by_name, greet, full_command}
use otus_c.TelnetClient.Search.{Occurs, without_commands, string_has_substring-Occurs}
use otus_c.TelnetClient.Search.{string_has_substring-offset}
use otus_c.TelnetClient.Session.{join, from_newline, but_last, collected, main-collect}

-- A telnet command stands in the middle of the text.
abbrev banner : List ℕ
banner = text ">> Press control-C to in" ++ (255 ∷ 253 ∷ 1 ∷ text "terrupt any command.\n")

has_banner : string_has_substring banner 0 (length banner) string_to_find ≡ true
unfolding string_has_substring
has_banner = refl

-- The first character twice in a row is not recovered from.
misses_banner :
    string_has_substring (text "PPress control-C to interrupt any command.") 0 42 string_to_find
    ≡ false
unfolding string_has_substring
misses_banner = refl

string_has_substring-Occurs_example :
    Occurs
      (take (length string_to_find - 1) string_to_find)
      (without_commands 0 (take (length banner) (drop 0 banner)))
string_has_substring-Occurs_example =
    string_has_substring-Occurs banner 0 (length banner) string_to_find (omega arith) has_banner

string_has_substring-offset_example :
    string_has_substring (text "abc\n") 2 2 string_to_find2 ≡ false
string_has_substring-offset_example =
    string_has_substring-offset (text "abc\n") 2 2 string_to_find2 (omega arith) (omega arith)

abbrev parts : List (List ℕ)
parts = text "ok##" ∷ text "#\n." ∷ []

abbrev network : Network
network = record {
  socket = true;
  setsockopt = true;
  addresses = some (
      record { af_inet = false; ip = text "::1" }
      ∷ record { af_inet = true; ip = text "127.0.0.1" }
      ∷ []);
  memory = true;
  inet_pton = true;
  connect = true;
  greeting = bytes banner ∷ [];
  send = true;
  answer = bytes (text "ok##") ∷ bytes (text "#\n.") ∷ [];
}

resolved : get_ip_addr_by_name network.addresses true ≡ some (text "127.0.0.1")
unfolding get_ip_addr_by_name
resolved = refl

greeted : (greet network.greeting).0 ≡ true
unfolding greet
greeted = refl

main-collect_example : main network (text "big") (text "hi") ≡ record {
  success = true;
  sent = some (full_command (text "big") (text "hi"));
  printed = but_last (from_newline (join (collected 0 parts)));
  closed = true;
}
main-collect_example =
    main-collect network (text "big") (text "hi") (text "127.0.0.1") parts refl refl resolved refl
      greeted refl refl (omega arith, (omega arith, tt)) (omega arith)

-- A first part with a newline ends the collecting; a newline behind the first bytes of a later one
-- does not.
stops_early :
    (collected 0 (text "a\nb" ∷ text "c" ∷ []) ≡ text "a\nb" ∷ [])
    × (collected 0 (text "abc" ∷ text "de\nf" ∷ text "g" ∷ [])
        ≡ text "abc" ∷ text "de\nf" ∷ text "g" ∷ [])
stops_early = (refl, refl)
