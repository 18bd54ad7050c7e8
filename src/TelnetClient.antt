-- ===== src/TelnetClient.antt =====
-- 11-client/main.c: a telnet client that asks a host for a banner and prints it.
--
-- What the host sends is the list of what `recv` answers, each cut to the size that is asked for;
-- behind the list the host has closed the connection. The other calls succeed or fail as an argument
-- says.
pub mod Search
pub mod Session
mod Tests
use otus_c.Common.{
  ℕ, zero, suc, ◌+◌, ◌-◌, Bool, true, false, not, ◌||◌, Option, none, some, List, [], ◌∷◌,
}
use otus_c.Common.{◌++◌, ltb, ◌==◌, if◌then◌else◌, length, take, drop, get_or, Text, text}

-- The loop of `string_has_substring`, over the bytes from `i` on; `skip` of them are still those of
-- a telnet command. Both sides of the test of what is left have `i + j` added.
abbrev pub scan_substring : ℕ → Text → ℕ → ℕ → ℕ → List ℕ → Bool
scan_substring size substring skip i j [] = false
scan_substring size substring (suc skip) i j (b ∷ rest) =
    scan_substring size substring skip (suc i) j rest
scan_substring size substring zero i j (b ∷ rest) =
    let j' = if b == get_or substring j 0 then suc j else 0 in
    let behind_command = scan_substring size substring 2 (suc i) j rest in
    let next = scan_substring size substring 0 (suc i) j' rest in
    if b == 255
    then behind_command
    else if ltb (size + suc j) (length substring + i)
    then false
    else if suc j' == length substring
    then true
    else next

unfoldable pub string_has_substring : List ℕ → ℕ → ℕ → Text → Bool
string_has_substring string offset size substring =
    scan_substring size substring 0 offset 0 (take size (drop offset string))

abbrev pub telnet_command : Text
telnet_command = text "figlet"

abbrev pub string_to_find : Text
string_to_find = text "Press control-C to interrupt any command."

abbrev pub string_to_find2 : Text
string_to_find2 = text "\n."

abbrev pub buf_size : ℕ
buf_size = 16000

-- An answer of `getaddrinfo`: whether it is AF_INET, and its text.
pub record Address : Type 0 where
  pub af_inet : Bool
  pub ip : Text

-- The loop of `get_ip_addr_by_name`; the copy may fail.
pub first_inet : Bool → List Address → Option Text
first_inet memory [] = none
first_inet memory (a ∷ rest) =
    let later = first_inet memory rest in
    if a.af_inet then (if memory then some a.ip else none) else later

pub get_ip_addr_by_name : Option (List Address) → Bool → Option Text
unfolding first_inet
get_ip_addr_by_name none memory = none
get_ip_addr_by_name (some addresses) memory = first_inet memory addresses

-- A call of `recv`.
pub data Received : Type 0 where
  failed : Received
  bytes : List ℕ → Received

-- The loop that waits for `string_to_find`: whether the last call failed, and what is left.
pub greet : List Received → Bool × List Received
unfolding string_has_substring
greet [] = (true, [])
greet (failed ∷ rest) = (false, rest)
greet (bytes bs ∷ rest) = elim (take (buf_size - 1) bs) [
  | [] ↦ (true, rest)
  | b ∷ bs' ↦
      let next = greet rest in
      if string_has_substring (b ∷ bs') 0 (length (b ∷ bs')) string_to_find
      then (true, rest)
      else next
]

-- The loop that collects the answer: the first `len + r` bytes of the buffer, and whether the last
-- call did not fail. `buffer` is its first `len` bytes.
pub collect : List Received → List ℕ → List ℕ × Bool
unfolding string_has_substring
collect [] buffer = (buffer, true)
collect (failed ∷ rest) buffer = (take (length buffer - 1) buffer, false)
collect (bytes bs ∷ rest) buffer = elim (take (buf_size - length buffer) bs) [
  | [] ↦ (buffer, true)
  | b ∷ bs' ↦
      let buffer' = buffer ++ (b ∷ bs') in
      let next = collect rest buffer' in
      if string_has_substring buffer' (length buffer) (length (b ∷ bs')) string_to_find2
      then (buffer', true)
      else next
]

-- The loop that prints.
abbrev pub print_bytes : Bool → List ℕ → List ℕ
print_bytes found_new_line [] = []
print_bytes found_new_line (b ∷ []) = []
print_bytes found_new_line (b ∷ c ∷ rest) =
    let found = found_new_line || b == b'\n' in
    let later = print_bytes found (c ∷ rest) in if found then b ∷ later else later

-- What `snprintf` leaves in the 4096 bytes of `full_command`.
abbrev pub full_command : Text → Text → Text
full_command font message =
    take 4095 (telnet_command ++ (text " /" ++ (font ++ (text " " ++ (message ++ text "\n\r")))))

-- What the system answers to `main`.
pub record Network : Type 0 where
  pub socket : Bool
  pub setsockopt : Bool
  pub addresses : Option (List Address)
  pub memory : Bool
  pub inet_pton : Bool
  pub connect : Bool
  pub greeting : List Received
  pub send : Bool
  pub answer : List Received

-- What `main` did: its exit code is EXIT_SUCCESS or not; what it gave to `send`, if it came to that; what it
-- printed of the answer; and whether the socket is closed, if it got one.
pub record Finished : Type 0 where
  pub success : Bool
  pub sent : Option Text
  pub printed : List ℕ
  pub closed : Bool

abbrev pub fail : Option Text → Finished
fail sent = record { success = false; sent = sent; printed = []; closed = true }

-- `main` behind the greeting.
pub ask : Network → Text → Text → Finished
unfolding collect
ask k font message =
    let command = full_command font message in
    let answer = collect k.answer [] in
    if not k.send then fail (some command) else record {
      success = if k.connect then answer.1 else false;
      sent = some command;
      printed = print_bytes false answer.0;
      closed = true;
    }

-- `main`, with its three arguments.
unfoldable pub main : Network → Text → Text → Finished
unfolding get_ip_addr_by_name greet ask
main k font message =
    if not k.socket
    then record { success = false; sent = none; printed = []; closed = false }
    else if not k.setsockopt
    then fail none
    else elim (get_ip_addr_by_name k.addresses k.memory) [
      | none ↦ fail none
      | some dst_ip ↦
          if not k.inet_pton
          then fail none
          else if (greet k.greeting).0
          then ask k font message
          else fail none
    ]
