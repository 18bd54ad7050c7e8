-- ===== src/HttpServer/Tests.antt =====
-- Requests to the server of 12-server/main.c, and its theorems there.
use otus_c.Common.{
  ℕ, ◌+◌, ◌≤◌, ◌≡◌, refl, true, false, none, some, List, [], ◌∷◌, arith, Bool-cases, inl, inr,
}
use otus_c.Common.{Text, text, str_eq, if◌then◌else◌, decimal}
use otus_c.HttpServer.{Opened, descriptor, enoent, replied, handle_client, answer}
use otus_c.HttpServer.{bad_request, scan_until, skip_spaces, is_refused, unparsed_response}
use otus_c.HttpServer.Path.{Serves, handle_client-Serves}
use otus_c.HttpServer.Request.{request, handle_client-request}
use otus_c.HttpServer.Framing.{IsWhole}
use otus_c.HttpServer.Worker.{Event, connection, readable, Setup, waiting}
use otus_c.HttpServer.Worker.{Worker, no_clients, serve_events, count}
use otus_c.HttpServer.Worker.{count_served, serve_events-count}
use otus_c.HttpServer.Startup.{System, scan_address}
use otus_c.HttpServer.Shutdown.{Pipe, Steps, done, next, leaves, signal_handler, leave_loop}
use otus_c.HttpServer.Shutdown.{signal_handler-enough}

abbrev dir : Text
dir = text "/srv"

abbrev path : Text
path = text "/srv/a.txt"

-- A directory with one file.
abbrev files : Text → Opened
files p = if str_eq p path then descriptor 2 (text "hi") else enoent

abbrev get : List ℕ
get = text "GET /files?name=a.txt HTTP/1.1\r\nHost: x\r\n\r\n"

abbrev sent : Text
sent =
    text
      "HTTP/1.1 200 OK\r\nContent-Type: text/plain\r\nContent-Length: 2\r\nConnection: close\r\n\r\nhi"

gets : handle_client dir files get ≡ replied (some path) sent
unfolding handle_client answer decimal
gets = refl

refuses :
    (handle_client dir files (text "GET /files?name=..%2fa HTTP/1.1") ≡ replied none bad_request)
    × (handle_client dir files (text "GET\n") ≡ replied none unparsed_response)
unfolding handle_client
refuses = (refl, refl)

handle_client-Serves_example : Serves dir files path sent
handle_client-Serves_example = handle_client-Serves dir files get path sent gets

is_refused_a : is_refused (text "a.txt") ≡ false
unfolding is_refused
is_refused_a = refl

handle_client-request_example :
    handle_client dir files (request (text "a.txt") (text "HTTP/1.1"))
    ≡ replied (some path) (answer (files path))
handle_client-request_example =
    handle_client-request dir files (text "a.txt") (text "HTTP/1.1") refl is_refused_a (omega arith)
      (omega arith)

files-IsWhole : (p : Text) → IsWhole (files p)
files-IsWhole p = elim (Bool-cases (str_eq p path)) [
  | inl e ↦ rw (e, IsWhole) refl
  | inr e ↦ rw (e, IsWhole) tt
]

abbrev works : Setup
works = record { creates = true; reuses = true; converts = true; binds = true }

abbrev events : List Event
events = connection (some 7) ∷ connection none ∷ connection (some 8) ∷ readable 7 get ∷ []

abbrev after : Worker
after = record {
  clients = 8 ∷ [];
  served = record { client_fd = 7; path = some path; sent = sent } ∷ [];
}

serves : serve_events dir files events no_clients ≡ waiting after
unfolding serve_events answer decimal
serves = refl

serve_events-count_example : count 7 after.clients + count_served 7 after.served ≡ 1
serve_events-count_example =
    serve_events-count dir files 7 events no_clients after (omega arith, tt) serves

abbrev linux : ℕ → System
linux n = record { cores = some n; pipes = true; creates = λ i. true }

abbrev host_port : Text
host_port = text "127.0.0.1:8080"

scans : scan_address host_port ≡ some (text "127.0.0.1", 8080)
unfolding scan_address scan_until skip_spaces
scans = refl

-- Two workers; one has left after a signal.
abbrev two : Pipe
two = record { running = 2; bytes = 0 }

abbrev one_left : Pipe
one_left = record { running = 1; bytes = 7 }

signal_steps : Steps 2 (signal_handler 2 two) one_left
unfolding signal_handler leave_loop
signal_steps =
    next (leaves (record { running = 2; bytes = 8 }) (omega arith) (omega arith)) (done one_left)

signal_handler-enough_example : 1 ≤ 7
signal_handler-enough_example = signal_handler-enough 2 two one_left (omega arith) signal_steps
