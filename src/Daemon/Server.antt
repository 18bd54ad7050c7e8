-- ===== src/Daemon/Server.antt =====
-- The responses of 8-daemon/main.c, and the arrays that it writes them to.
use otus_c.Common.{decimal, ℕ, suc, ◌+◌, ◌/◌, ◌%◌, ◌≤◌, ◌<◌, ◌≡◌}
use otus_c.Common.{none, some, List, [], ◌∷◌, ◌++◌}
use otus_c.Common.{Text, text, arith, inl, inr, length, length-append}
use otus_c.Common.{inr, if◌then◌else◌, take}
use otus_c.Daemon.{Client, Sockets, overflow, get_file_size}
use otus_c.Daemon.{serve_clients, listen_to_unix_socket}

decimal_pos : (fuel n : ℕ) → 0 < length (decimal (suc fuel) n)
unfolding decimal
decimal_pos fuel n = ground (arith, length-append (decimal fuel (n / 10)) ((n % 10 + 48) ∷ []))

-- The text of an error is short enough for the response.
abbrev pub IsShort : Client → Type 0
IsShort c = (e : Text) → c.stat ≡ inr e → length e ≤ 72

abbrev pub AreShort : List Client → Type 0
AreShort [] = Unit
AreShort (c ∷ cs) = IsShort c × AreShort cs

length_response :
    (n : ℕ) (path : Text)
    → length (get_file_size (inl n) path) ≡ 32 + length path + length (decimal 19 n)
unfolding get_file_size
length_response n path = omega (
  arith,
  length-append path (text " file is " ++ (decimal 19 n ++ text " bytes\n")),
  length-append (decimal 19 n) (text " bytes\n"),
)

-- What the clients get, in order: of the response for the size or the error of its moment each gets
-- what `write` takes; one whose `accept` or `write` fails gets nothing.
abbrev pub responses : Text → List Client → List Text
responses path [] = []
responses path (c ∷ cs) =
    let rest = responses path cs in
    let one : List Text = elim c.written [
      | none ↦ rest
      | some n ↦ take n (get_file_size c.stat path) ∷ rest
    ] in
    if c.accepted then one else rest

-- A failing `listen` (it returns -1, the code looks for 1) is not noticed: the outcome is that of a
-- successful one.
pub listen_unchecked :
    (k : Sockets) (socket path : Text) (sts : List Client)
    → k.listens ≡ none
    → listen_to_unix_socket k socket path sts
      ≡ listen_to_unix_socket (record k { listens = some 0 }) socket path sts
unfolding listen_to_unix_socket
listen_unchecked k socket path sts h = ground (arith, h)

-- A path of 67 characters or more, where `startServer` takes up to 99, is too long for the
-- response: the first client for whom the file has a size makes it overflow.
pub serve_clients-overflow :
    (path : Text) (c : Client) (n : ℕ) (sts : List Client) (sent : List Text)
    → 67 ≤ length path
    → c.stat ≡ inl n
    → serve_clients path (c ∷ sts) sent ≡ overflow
unfolding serve_clients
serve_clients-overflow path c n sts sent h e =
    rw (e) (ground (arith, length_response n path, decimal_pos 18 n))
