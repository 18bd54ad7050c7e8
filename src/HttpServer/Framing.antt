-- ===== src/HttpServer/Framing.antt =====
-- The responses of 12-server/main.c: a client that reads Content-Length bytes gets the whole body.
use otus_c.Common.{c_string, ℕ, ◌≡◌, refl, Option, List, [], ◌++◌, arith}
use otus_c.Common.{Text, text, length, decimal, Bool-cases, Option-cases, inl, inr, ◌⊎◌, ltb, ◌&&◌}
use otus_c.Common.{◌==◌, take}
use otus_c.Common.{append_assoc, ◌∷◌, subst}
use otus_c.HttpServer.{not_found_response, bad_request, denied_request}
use otus_c.HttpServer.{unparsed_response, scan_words, has_prefix, strchr, query_name}
use otus_c.HttpServer.{is_refused, Opened, descriptor, enoent, eacces, other_error, answer, replied}
use otus_c.HttpServer.{full_path, path_max, send_file, parsed_uri, respond, handle_client}

-- A response whose header tells the length of its body.
abbrev pub IsFramed : Text → Type 0
IsFramed sent =
    (head : Text) × (body : Text) × (sent
      ≡ head
        ++ (text "Content-Length: "
            ++ (decimal 19 (length body) ++ (text "\r\nConnection: close\r\n\r\n" ++ body))))

-- Opening ends by a descriptor whose file is sent as a whole, or by one of the two errors that the
-- code tells apart.
abbrev pub IsWhole : Opened → Type 0
IsWhole (descriptor file_size body) = file_size ≡ length body
IsWhole enoent = Unit
IsWhole eacces = Unit
IsWhole other_error = ⊥

not_found_IsFramed : IsFramed not_found_response
unfolding decimal
not_found_IsFramed =
    (text "HTTP/1.1 404 Not Found\r\nContent-Type: text/plain\r\n", text "File not found\r\n", refl)

bad_request-IsFramed : IsFramed bad_request
unfolding decimal
bad_request-IsFramed =
    (text "HTTP/1.1 400 Bad Request\r\nContent-Type: text/plain\r\n", text "Bad request\r\n", refl)

denied_IsFramed : IsFramed denied_request
unfolding decimal
denied_IsFramed = (text "HTTP/1.1 403 Forbidden\r\n", text "Access denied\r\n", refl)

answer-IsFramed : (o : Opened) → IsWhole o → IsFramed (answer o)
unfolding answer
answer-IsFramed (descriptor n body) h = (
  text "HTTP/1.1 200 OK\r\nContent-Type: text/plain\r\n",
  body,
  rw (h, append_assoc (decimal 19 (length body)) (text "\r\nConnection: close\r\n\r\n") body) refl,
)
answer-IsFramed enoent h = not_found_IsFramed
answer-IsFramed eacces h = denied_IsFramed
answer-IsFramed other_error h = elim h [ ]

-- What a client may get: a framed response; or nothing, if nothing was received; or the 25 bytes
-- for a request that lacks a word.
abbrev pub Fine : Text → Type 0
Fine sent = (sent ≡ []) ⊎ ((sent ≡ unparsed_response) ⊎ IsFramed sent)

module _ (dir : Text) (open_file : Text → Opened) (whole : (p : Text) → IsWhole (open_file p)) where
  send_file-IsFramed :
      (filename : Text) (path : Option Text) (sent : Text)
      → send_file dir open_file filename ≡ replied path sent
      → IsFramed sent
  unfolding send_file
  send_file-IsFramed filename path sent h = elim (Bool-cases (is_refused filename)) [
    | inl r ↦
        let e : bad_request ≡ sent = ground (arith, r) in subst IsFramed e bad_request-IsFramed
    | inr r ↦ elim (Bool-cases (ltb (length (full_path dir filename)) path_max)) [
      | inr f ↦ absurd (ground (arith, r, f))
      | inl f ↦
          let e : answer (open_file (full_path dir filename)) ≡ sent = ground (arith, r, f) in
          subst IsFramed e
            (answer-IsFramed (open_file (full_path dir filename)) (whole (full_path dir filename)))
    ]
  ]

  respond-IsFramed :
      (method uri : Text) (path : Option Text) (sent : Text)
      → respond dir open_file method uri ≡ replied path sent
      → IsFramed sent
  unfolding respond
  respond-IsFramed method uri path sent h = elim (Bool-cases (has_prefix method (text "GET"))) [
    | inr g ↦ let e : denied_request ≡ sent = ground (arith, g) in subst IsFramed e denied_IsFramed
    | inl g ↦ elim (Bool-cases (has_prefix uri (take 7 (text "/files?")))) [
      | inr f ↦
          let e : not_found_response ≡ sent = ground (arith, g, f) in
          subst IsFramed e not_found_IsFramed
      | inl f ↦ elim (Option-cases (strchr b'?' (parsed_uri uri))) [
        | inl q ↦
            let e : bad_request ≡ sent = ground (arith, g, f, q) in
            subst IsFramed e bad_request-IsFramed
        | inr (t, q) ↦ send_file-IsFramed (query_name t) path sent (ground (arith, g, f, q))
      ]
    ]
  ]

  -- Where opening gives a file that is sent as a whole or one of the errors ENOENT and EACCES, every
  -- client gets a response whose Content-Length is the length of its body, or, if nothing was
  -- received, nothing, or, if a word of the request is missing, the first 25 bytes of a response.
  pub handle_client-Fine :
      (received : List ℕ) (path : Option Text) (sent : Text)
      → handle_client dir open_file received ≡ replied path sent
      → Fine sent
  unfolding handle_client
  handle_client-Fine [] path sent h = inl (ground arith)
  handle_client-Fine (b ∷ bs) path sent h =
      let (method, uri) = scan_words (c_string (take 2047 (b ∷ bs))) in
      elim (Bool-cases (ltb (length method) 10 && ltb (length uri) 1024)) [
        | inr l ↦ absurd (ground (arith, l))
        | inl l ↦ elim (Bool-cases (length uri == 0)) [
          | inl u ↦ inr (inl (ground (arith, l, u)))
          | inr u ↦ inr (inr (respond-IsFramed method uri path sent (ground (arith, l, u))))
        ]
      ]
