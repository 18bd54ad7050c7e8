-- ===== src/HttpServer/Worker.antt =====
-- `worker_thread` of 12-server/main.c: the set-up, and the loop over the events of the worker's epoll
-- instance.
use otus_c.Common.{ℕ, ◌+◌, ◌≡◌, ◌<◌, subst, refl, ◌⊎◌, Bool, ◌&&◌, Option, none, some, arith}
use otus_c.Common.{List, [], ◌∷◌, ◌==◌, if◌then◌else◌, Text, Bool-cases, inl, inr}
use otus_c.HttpServer.{Opened, Handled, replied, overflow, handle_client}
use otus_c.HttpServer.Path.{Serves, handle_client-Serves}

-- An event is told by its descriptor: the pipe's; the listening socket's, with the descriptor that
-- `accept` gives, if it does; or a client's, with what `recv` can read.
pub data Event : Type 0 where
  shutdown : Event
  connection : Option ℕ → Event
  readable : ℕ → List ℕ → Event

-- A client that was handled and closed.
pub record Served : Type 0 where
  pub client_fd : ℕ
  pub path : Option Text
  pub sent : Text

-- The clients whose descriptors are open, and those that were served, the last one first.
pub record Worker : Type 0 where
  pub clients : List ℕ
  pub served : List Served

-- A worker waits for the next event, has left its loop, or has written beyond an array.
pub data Loop : Type 0 where
  waiting ended : Worker → Loop
  crashed : Loop

-- `close`
pub remove : ℕ → List ℕ → List ℕ
remove fd [] = []
remove fd (x ∷ xs) = let rest = remove fd xs in if x == fd then xs else x ∷ rest

pub close_client : ℕ → Handled → Worker → Option Worker
unfolding remove
close_client fd overflow w = none
close_client fd (replied path sent) w = some (record {
  clients = remove fd w.clients;
  served = record { client_fd = fd; path = path; sent = sent } ∷ w.served;
})

-- The events in the order in which the worker takes them; those behind a shutdown are dropped.
unfoldable pub serve_events : Text → (Text → Opened) → List Event → Worker → Loop
unfolding handle_client close_client
serve_events dir open_file [] w = waiting w
serve_events dir open_file (shutdown ∷ es) w = ended w
serve_events dir open_file (connection none ∷ es) w = serve_events dir open_file es w
serve_events dir open_file (connection (some fd) ∷ es) w =
    serve_events dir open_file es (record w { clients = fd ∷ w.clients })
serve_events dir open_file (readable fd received ∷ es) w =
    elim (close_client fd (handle_client dir open_file received) w) [
      | none ↦ crashed
      | some w' ↦ serve_events dir open_file es w'
    ]

-- Which of the calls of the set-up succeed.
pub record Setup : Type 0 where
  pub creates : Bool
  pub reuses : Bool
  pub converts : Bool
  pub binds : Bool

abbrev pub no_clients : Worker
no_clients = record { clients = []; served = [] }

pub worker_thread : Setup → Text → (Text → Opened) → List Event → Loop
unfolding serve_events
worker_thread k dir open_file events =
    if k.creates && (k.reuses && (k.converts && k.binds))
    then serve_events dir open_file events no_clients
    else ended no_clients

-- Each file that was opened for a client stands in the directory and was sent to that client.
abbrev pub IsSafe : Text → (Text → Opened) → List Served → Type 0
IsSafe dir open_file [] = Unit
IsSafe dir open_file (s ∷ ss) =
    ((p : Text) → s.path ≡ some p → Serves dir open_file p s.sent) × IsSafe dir open_file ss

abbrev pub served_of : Loop → List Served
served_of (waiting w) = w.served
served_of (ended w) = w.served
served_of crashed = []

Handled-cases :
    (h : Handled)
    → (h ≡ overflow) ⊎ ((path : Option Text) × (sent : Text) × (h ≡ replied path sent))
Handled-cases (replied path sent) = inr (path, sent, refl)
Handled-cases overflow = inl refl

serve_events-IsSafe :
    (dir : Text) (open_file : Text → Opened) (es : List Event) (w : Worker)
    → IsSafe dir open_file w.served
    → IsSafe dir open_file (served_of (serve_events dir open_file es w))
unfolding serve_events
serve_events-IsSafe dir open_file [] w h = h
serve_events-IsSafe dir open_file (shutdown ∷ es) w h = h
serve_events-IsSafe dir open_file (connection none ∷ es) w h =
    serve_events-IsSafe dir open_file es w h
serve_events-IsSafe dir open_file (connection (some fd) ∷ es) w h =
    serve_events-IsSafe dir open_file es (record w { clients = fd ∷ w.clients }) h
serve_events-IsSafe dir open_file (readable fd received ∷ es) w h =
    elim (Handled-cases (handle_client dir open_file received)) [
      | inl e ↦ rw (e, IsSafe, served_of) tt
      | inr (path, sent, e) ↦
          rw (e, IsSafe, served_of)
            (serve_events-IsSafe dir open_file es
              (record {
                clients = remove fd w.clients;
                served = record { client_fd = fd; path = path; sent = sent } ∷ w.served;
              })
              (λ p q. handle_client-Serves dir open_file received p sent (rw (e, q) refl), h))
    ]

-- Whatever connects and is received in whatever order, and whether or not the set-up succeeds: each
-- file that a worker opened stands directly in the served directory, and the client got the answer
-- for that file.
pub worker_thread-IsSafe :
    (k : Setup) (dir : Text) (open_file : Text → Opened) (es : List Event)
    → IsSafe dir open_file (served_of (worker_thread k dir open_file es))
unfolding worker_thread
worker_thread-IsSafe k dir open_file es =
    elim (Bool-cases (k.creates && (k.reuses && (k.converts && k.binds)))) [
      | inl e ↦ rw (e) (serve_events-IsSafe dir open_file es no_clients tt)
      | inr e ↦ rw (e) tt
    ]

abbrev pub count : ℕ → List ℕ → ℕ
count fd [] = 0
count fd (x ∷ xs) = (if x == fd then 1 else 0) + count fd xs

abbrev pub count_served : ℕ → List Served → ℕ
count_served fd [] = 0
count_served fd (x ∷ xs) = (if x.client_fd == fd then 1 else 0) + count_served fd xs

abbrev pub count_accepted : ℕ → List Event → ℕ
count_accepted fd [] = 0
count_accepted fd (shutdown ∷ es) = count_accepted fd es
count_accepted fd (connection none ∷ es) = count_accepted fd es
count_accepted fd (connection (some a) ∷ es) = (if a == fd then 1 else 0) + count_accepted fd es
count_accepted fd (readable a r ∷ es) = count_accepted fd es

-- The system tells of a client only while its descriptor is open.
abbrev pub IsRun : List Event → List ℕ → Type 0
IsRun [] cs = Unit
IsRun (shutdown ∷ es) cs = IsRun es cs
IsRun (connection none ∷ es) cs = IsRun es cs
IsRun (connection (some a) ∷ es) cs = IsRun es (a ∷ cs)
IsRun (readable a r ∷ es) cs = (0 < count a cs) × IsRun es (remove a cs)

count-remove :
    (fd a : ℕ) (cs : List ℕ)
    → 0 < count a cs
    → count fd cs ≡ (if a == fd then 1 else 0) + count fd (remove a cs)
unfolding remove
count-remove fd a [] h = absurd (omega arith)
count-remove fd a (x ∷ xs) h = elim (Bool-cases (x == a)) [
  | inl e ↦ ground (arith, e)
  | inr e ↦ ground (arith, e, count-remove fd a xs)
]

-- As long as a worker waits for events, each descriptor is among the open clients and the served
-- ones together exactly as often as it was accepted: every client is served at most once, and each
-- is closed when it has been served.
pub serve_events-count :
    (dir : Text) (open_file : Text → Opened) (fd : ℕ) (es : List Event) (w w' : Worker)
    → IsRun es w.clients
    → serve_events dir open_file es w ≡ waiting w'
    → count fd w'.clients + count_served fd w'.served
      ≡ count fd w.clients + count_served fd w.served + count_accepted fd es
unfolding serve_events
serve_events-count dir open_file fd [] w w' r e =
    let p : w ≡ w' = cc in
    subst
      (λ v.
        count fd v.clients + count_served fd v.served
        ≡ count fd w.clients + count_served fd w.served + 0)
      p (omega arith)
serve_events-count dir open_file fd (shutdown ∷ es) w w' r e = absurd (ground arith)
serve_events-count dir open_file fd (connection none ∷ es) w w' r e =
    serve_events-count dir open_file fd es w w' r e
serve_events-count dir open_file fd (connection (some a) ∷ es) w w' r e =
    omega
      (arith, serve_events-count dir open_file fd es (record w { clients = a ∷ w.clients }) w' r e)
serve_events-count dir open_file fd (readable a received ∷ es) w w' r e =
    elim (Handled-cases (handle_client dir open_file received)) [
      | inl h ↦ absurd (ground (arith, h))
      | inr (path, sent, h) ↦
          let next : Worker = record {
            clients = remove a w.clients;
            served = record { client_fd = a; path = path; sent = sent } ∷ w.served;
          } in
          let rest : serve_events dir open_file es next ≡ waiting w' = ground (arith, h) in
          omega (
            arith,
            count-remove fd a w.clients r.0,
            serve_events-count dir open_file fd es next w' r.1 rest,
          )
    ]
