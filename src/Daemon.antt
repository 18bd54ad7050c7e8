-- ===== src/Daemon.antt =====
-- 8-daemon/main.c: a server that answers every client of a unix socket with the size of a file, and
-- the reading of its YAML configuration.
--
-- libyaml is a source of events; the answers of the system's calls are arguments. A loop over
-- clients runs over those of an execution so far.
pub mod Parse
pub mod Server
mod Tests
use otus_c.Common.{
  ℕ, zero, suc, ◌+◌, ◌/◌, ◌%◌, Bool, true, false, Option, none, some, List, [], ◌∷◌,
}
use otus_c.Common.{
  decimal, ◌⊎◌, inl, inr, not, ◌&&◌, ◌++◌, ltb, ◌==◌, if◌then◌else◌, Text, text, str_eq, length,
  take,
}

-- `struct Config`; an option for a pointer.
pub record Config : Type 0 where
  pub socket_path : Option Text
  pub file_path : Option Text

-- `parse_state_t`
pub data ParseState : Type 0 where
  expect_key expect_unknown_value expect_socket_path_value expect_file_path_value : ParseState

-- The events of libyaml before the end of the stream, as far as they are told apart.
pub data Event : Type 0 where
  mapping_start : Event
  scalar : Text → Event
  other : Event

abbrev pub socket_key : Text
socket_key = text "socketPath"

abbrev pub file_key : Text
file_key = text "filePath"

-- `case EXPECT_KEY`
pub key_state : Text → ParseState
key_state key =
    if str_eq key file_key
    then expect_file_path_value
    else if str_eq key socket_key
    then expect_socket_path_value
    else expect_unknown_value

-- One round of the loop: the switch on the type of the event, and on the state for a scalar.
pub on_scalar : ParseState → Text → Config → ParseState × Config
unfolding key_state
on_scalar expect_key v c = (key_state v, c)
on_scalar expect_unknown_value v c = (expect_key, c)
on_scalar expect_socket_path_value v c = (expect_key, record c { socket_path = some v })
on_scalar expect_file_path_value v c = (expect_key, record c { file_path = some v })

pub on_event : Event → ParseState → Config → ParseState × Config
unfolding on_scalar
on_event mapping_start s c = (expect_key, c)
on_event (scalar v) s c = on_scalar s v c
on_event other s c = (s, c)

pub parse_events : List Event → ParseState → Config → ParseState × Config
unfolding on_event
parse_events [] s c = (s, c)
parse_events (e ∷ es) s c = let (s', c') = on_event e s c in parse_events es s' c'

-- What the parser is given: whether the file opens and the parser starts, what the memory of the
-- fresh `struct Config` holds, the events, and whether the stream then ends (or an event fails).
pub record Input : Type 0 where
  pub opens : Bool
  pub starts : Bool
  pub fresh : Config
  pub events : List Event
  pub ends : Bool

-- The two paths, if the configuration is accepted.
pub parse_config : Input → Option (Text × Text)
unfolding parse_events
parse_config i =
    if i.opens && i.starts && i.ends
    then (let c = (parse_events i.events expect_key i.fresh).1 in
        elim c.socket_path [
          | none ↦ none
          | some s ↦ elim c.file_path [ none ↦ none | some f ↦ some (s, f) ]
        ])
    else none

-- `getFileSize`: the size if `stat` succeeds, else the text of the error. An `off_t` has at most
-- 19 digits.
pub get_file_size : (ℕ ⊎ Text) → Text → Text
get_file_size (inl st_size) file_path =
    text "the size of the "
    ++ (file_path ++ (text " file is " ++ (decimal 19 st_size ++ text " bytes\n")))
get_file_size (inr error) file_path = text "failed to get file stats: " ++ (error ++ text "\n")

-- A text with its zero fits into an array of `n` bytes; writing a longer one is undefined.
abbrev pub fits : ℕ → Text → Bool
fits n t = ltb (length t) n

-- What the system answers to the set-up of the socket; `listens` is the value of `listen`, where
-- `none` is -1.
pub record Sockets : Type 0 where
  pub unlinks : Bool
  pub absent : Bool
  pub creates : Bool
  pub binds : Bool
  pub listens : Option ℕ

-- How the program ends or goes on: it returns a status; it serves, with what was written to
-- clients so far; or it writes beyond an array.
pub data Run : Type 0 where
  status : ℕ → Run
  serving : List Text → Run
  overflow : Run

-- What the system answers for one client: whether `accept` gives a descriptor, what `stat` gives, and
-- how many bytes `write` takes, where `none` is -1.
pub record Client : Type 0 where
  pub accepted : Bool
  pub stat : ℕ ⊎ Text
  pub written : Option ℕ

-- What a client gets of a message: nothing where there is none, or the writing fails.
pub answer_client : Client → Text → List Text
answer_client c response_msg =
    if c.accepted then elim c.written [ none ↦ [] | some n ↦ take n response_msg ∷ [] ] else []

-- The loop over the clients; neither a failing `accept` nor a failing `write` ends it.
pub serve_clients : Text → List Client → List Text → Run
unfolding answer_client
serve_clients file_path [] sent = serving sent
serve_clients file_path (c ∷ cs) sent =
    let response_msg = get_file_size c.stat file_path in
    let rest = serve_clients file_path cs (sent ++ answer_client c response_msg) in
    if fits 100 response_msg then rest else overflow

pub listen_to_unix_socket : Sockets → Text → Text → List Client → Run
unfolding serve_clients
listen_to_unix_socket k socket_path file_path clients =
    if not k.unlinks && not k.absent
    then status 1
    else if not k.creates
    then status 1
    else if not (fits 108 socket_path)
    then overflow
    else if not k.binds
    then status 1
    else elim k.listens [
      | none ↦ serve_clients file_path clients []
      | some r ↦ if r == 1 then status 1 else serve_clients file_path clients []
    ]

-- `startServer`; -1 is the status 255 of the process.
pub start_server : Input → Sockets → List Client → Run
unfolding parse_config listen_to_unix_socket
start_server i k clients = elim (parse_config i) [
  | none ↦ status 255
  | some (socket, file) ↦
      if fits 100 socket && fits 100 file
      then listen_to_unix_socket k socket file clients
      else overflow
]

-- What `fork` gives.
pub data Fork : Type 0 where
  fork_failed child parent : Fork

-- `args` are the arguments behind the program's name.
pub main : Fork → Input → Sockets → List Client → List Text → Run
unfolding start_server
main fork i k clients (arg ∷ []) =
    if str_eq arg (text "-d")
    then elim fork [ fork_failed ↦ status 1 | child ↦ start_server i k clients | parent ↦ status 0 ]
    else status 1
main fork i k clients _ = start_server i k clients
