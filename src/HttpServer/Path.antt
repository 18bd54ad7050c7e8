-- ===== src/HttpServer/Path.antt =====
-- The files that the server of 12-server/main.c opens: only those that stand directly in its
-- directory, and each of these for whoever asks for it properly.
use otus_c.Common.{c_string, ℕ, zero, suc, ◌≤◌, ◌<◌, ◌≡◌, refl, ◌≢◌, true, false, ◌&&◌}
use otus_c.Common.{some, List, [], ◌∷◌, ◌++◌, ltb, ltb→lt, ◌==◌, arith}
use otus_c.Common.{Text, text, length, take, drop, get_elem?}
use otus_c.Common.{Bool-cases, Option-cases, inl, inr}
use otus_c.HttpServer.{scan_words, has_prefix, strstr, strchr, is_found, scan_until}
use otus_c.HttpServer.{query_name, is_refused, Opened, answer, replied, full_path, path_max}
use otus_c.HttpServer.{send_file, respond, parsed_uri, handle_client}

-- A name of a file directly in a directory, and not of the directory above.
abbrev pub IsEntry : Text → Type 0
IsEntry t =
    (0 < length t)
    × (length t ≤ 255)
    × ((i : ℕ) → get_elem? t i ≢ some b'/')
    × ((i : ℕ) → get_elem? t i ≢ some b'\\')
    × ((xs ys : Text) → t ≢ xs ++ (text ".." ++ ys))

strchr_free : (a : ℕ) (t : Text) → is_found (strchr a t) ≡ false → (i : ℕ) → get_elem? t i ≢ some a
unfolding strchr is_found
strchr_free a [] h i = λ e. cc
strchr_free a (c ∷ cs) h zero = λ e. ground (arith, e)
strchr_free a (c ∷ cs) h (suc i) = strchr_free a cs (ground arith) i

has_prefix-append : (p t : Text) → has_prefix (p ++ t) p ≡ true
unfolding has_prefix
has_prefix-append [] t = refl
has_prefix-append (c ∷ p) t = ground (arith, has_prefix-append p t)

strstr_prefix : (part t : Text) → has_prefix t part ≡ true → is_found (strstr part t) ≡ true
unfolding strstr is_found
strstr_prefix part [] h = ground arith
strstr_prefix part (c ∷ cs) h = ground arith

strstr_inside : (part xs ys : Text) → is_found (strstr part (xs ++ (part ++ ys))) ≡ true
unfolding strstr is_found
strstr_inside part [] ys = strstr_prefix part (part ++ ys) (has_prefix-append part ys)
strstr_inside part (x ∷ xs) ys = ground (arith, strstr_inside part xs ys)

length-scan_name : (n : ℕ) (t : Text) → length (scan_until b'&' n t) ≤ n
unfolding scan_until
length-scan_name zero t = omega arith
length-scan_name (suc n) [] = omega arith
length-scan_name (suc n) (c ∷ cs) = ground (arith, length-scan_name n cs)

length-query_name : (t : Text) → length (query_name t) ≤ 255
unfolding query_name
length-query_name t = elim (Option-cases (strstr (text "name=") t)) [
  | inl e ↦ ground (arith, e)
  | inr (k, e) ↦ ground (arith, e, length-scan_name 255 (drop 5 k))
]

is_refused-IsEntry : (t : Text) → is_refused t ≡ false → length t ≤ 255 → IsEntry t
unfolding is_refused
is_refused-IsEntry t h short = (
  ground arith,
  short,
  strchr_free b'/' t (ground arith),
  strchr_free b'\\' t (ground arith),
  λ xs ys e. ground (arith, e, strstr_inside (text "..") xs ys),
)

-- What was opened, if anything, and how that was answered.
abbrev pub Serves : Text → (Text → Opened) → Text → Text → Type 0
Serves dir open_file path sent =
    (filename : Text) × IsEntry filename
    × (path ≡ full_path dir filename)
    × (length path < path_max)
    × (sent ≡ answer (open_file path))

send_file-Serves :
    (dir : Text) (open_file : Text → Opened) (filename path sent : Text)
    → send_file dir open_file filename ≡ replied (some path) sent
    → length filename ≤ 255
    → Serves dir open_file path sent
unfolding send_file
send_file-Serves dir open_file filename path sent h short =
    elim (Bool-cases (is_refused filename)) [
      | inl r ↦ absurd (ground (arith, r))
      | inr r ↦ elim (Bool-cases (ltb (length (full_path dir filename)) path_max)) [
        | inl f ↦
            let p : path ≡ full_path dir filename = ground (arith, r, f) in
            let s : sent ≡ answer (open_file (full_path dir filename)) = ground (arith, r, f) in
            (
              filename,
              is_refused-IsEntry filename r short,
              p,
              rw (p) (ltb→lt (length (full_path dir filename)) path_max f),
              rw (p) s,
            )
        | inr f ↦ absurd (ground (arith, r, f))
      ]
    ]

respond-Serves :
    (dir : Text) (open_file : Text → Opened) (method uri path sent : Text)
    → respond dir open_file method uri ≡ replied (some path) sent
    → Serves dir open_file path sent
unfolding respond
respond-Serves dir open_file method uri path sent h =
    elim (Bool-cases (has_prefix method (text "GET"))) [
      | inr g ↦ absurd (ground (arith, g))
      | inl g ↦ elim (Bool-cases (has_prefix uri (take 7 (text "/files?")))) [
        | inr f ↦ absurd (ground (arith, g, f))
        | inl f ↦ elim (Option-cases (strchr b'?' (parsed_uri uri))) [
          | inl q ↦ absurd (ground (arith, g, f, q))
          | inr (t, q) ↦
              send_file-Serves dir open_file (query_name t) path sent (ground (arith, g, f, q))
                (length-query_name t)
        ]
      ]
    ]

-- Whatever a client sends, a file that is opened for it stands directly in the served directory: its
-- name has from 1 to 255 characters, no slash, no backslash, and no two dots in a row; its path fits
-- into the array, and the client gets the answer for that very file.
pub handle_client-Serves :
    (dir : Text) (open_file : Text → Opened) (received : List ℕ) (path sent : Text)
    → handle_client dir open_file received ≡ replied (some path) sent
    → Serves dir open_file path sent
unfolding handle_client
handle_client-Serves dir open_file [] path sent h = absurd (ground arith)
handle_client-Serves dir open_file (b ∷ bs) path sent h =
    let (method, uri) = scan_words (c_string (take 2047 (b ∷ bs))) in
    elim (Bool-cases (ltb (length method) 10 && ltb (length uri) 1024)) [
      | inr l ↦ absurd (ground (arith, l))
      | inl l ↦ elim (Bool-cases (length uri == 0)) [
        | inl u ↦ absurd (ground (arith, l, u))
        | inr u ↦ respond-Serves dir open_file method uri path sent (ground (arith, l, u))
      ]
    ]
