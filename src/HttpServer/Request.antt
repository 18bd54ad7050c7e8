-- ===== src/HttpServer/Request.antt =====
-- What the server of 12-server/main.c reads out of a request.
use otus_c.Common.{
  c_string, ℕ, zero, suc, ◌-◌, ◌≤◌, ◌<◌, ◌≡◌, refl, ap, Bool, true, false, ◌&&◌, not,
}
use otus_c.Common.{
  some, List, [], ◌∷◌, ◌++◌, ltb, ltb→lt, lt→ltb, Bool-cases, inl, inr, ◌==◌, arith,
}
use otus_c.Common.{Text, text, is_space, length, take}
use otus_c.HttpServer.{skip_spaces, word, scan_words}
use otus_c.HttpServer.{scan_until, is_refused, Opened, answer, replied}
use otus_c.HttpServer.{full_path, path_max, send_file, respond, handle_client, overflow}

-- A text without a zero, a space, or an ampersand.
abbrev pub is_plain : Text → Bool
is_plain [] = true
is_plain (c ∷ cs) = not (c == 0) && (not (is_space c) && (not (c == b'&') && is_plain cs))

received_word :
    (n : ℕ) (t r : List ℕ)
    → is_plain t ≡ true
    → length t < n
    → c_string (take n (t ++ (32 ∷ r))) ≡ t ++ (32 ∷ c_string (take (n - suc (length t)) r))
unfolding c_string
received_word zero t r h l = absurd (omega arith)
received_word (suc n) [] r h l = ap (λ k. 32 ∷ c_string (take k r)) {x = n} (omega arith)
received_word (suc n) (c ∷ cs) r h l = ground (
  arith,
  received_word n cs r,
  ap (λ k. c_string (take k r)) {x = n - suc (length cs)} {y = suc n - suc (length (c ∷ cs))}
      (omega arith),
)

word_plain : (t r : Text) → is_plain t ≡ true → word (t ++ (32 ∷ r)) ≡ t
unfolding word
word_plain [] r h = refl
word_plain (c ∷ cs) r h = ground (arith, word_plain cs r)

scan_name_plain : (n : ℕ) (t : Text) → is_plain t ≡ true → length t ≤ n → scan_until b'&' n t ≡ t
unfolding scan_until
scan_name_plain zero [] h l = refl
scan_name_plain zero (c ∷ cs) h l = absurd (omega arith)
scan_name_plain (suc n) [] h l = refl
scan_name_plain (suc n) (c ∷ cs) h l = ground (arith, scan_name_plain n cs)

-- The line of a request for a file, and what follows it.
abbrev pub request : Text → List ℕ → List ℕ
request filename rest = text "GET /files?name=" ++ (filename ++ (32 ∷ rest))

abbrev uri_of : Text → Text
uri_of filename = text "/files?name=" ++ filename

received_request :
    (filename : Text) (rest : List ℕ)
    → is_plain filename ≡ true
    → length filename ≤ 255
    → scan_words (c_string (take 2047 (request filename rest))) ≡ (text "GET", uri_of filename)
unfolding scan_words c_string
received_request filename rest h l =
    let behind = c_string (take (2031 - suc (length filename)) rest) in
    rw (received_word 2031 filename rest h (omega arith))
      (ap (λ w. (text "GET", text "/files?name=" ++ w)) (word_plain filename behind h))

respond_request :
    (dir : Text) (open_file : Text → Opened) (filename : Text)
    → is_plain filename ≡ true
    → length filename ≤ 255
    → respond dir open_file (text "GET") (uri_of filename) ≡ send_file dir open_file filename
unfolding respond
respond_request dir open_file filename h l =
    ap (send_file dir open_file) (scan_name_plain 255 filename h l)

-- Each entry of the directory with a plain name can be had: the request for it, whatever headers
-- follow, is answered by the file of that name.
pub handle_client-request :
    (dir : Text) (open_file : Text → Opened) (filename : Text) (rest : List ℕ)
    → is_plain filename ≡ true
    → is_refused filename ≡ false
    → length filename ≤ 255
    → length (full_path dir filename) < path_max
    → handle_client dir open_file (request filename rest)
      ≡ replied (some (full_path dir filename)) (answer (open_file (full_path dir filename)))
unfolding handle_client send_file
handle_client-request dir open_file filename rest h r l p =
    let behind = c_string (take (2031 - suc (length filename)) rest) in
    rw
      (
        received_word 2031 filename rest h (omega arith),
        word_plain filename behind h,
        scan_name_plain 255 filename h l,
      )
      (ground (arith, lt→ltb (length (full_path dir filename)) path_max p))

skip_spaces_plain : (t r : Text) → is_plain t ≡ true → 0 < length t → skip_spaces (t ++ r) ≡ t ++ r
unfolding skip_spaces
skip_spaces_plain [] r h l = absurd (omega arith)
skip_spaces_plain (c ∷ cs) r h l = ground arith

long_method :
    (dir : Text) (open_file : Text → Opened) (b : ℕ) (bs : List ℕ)
    → 10 ≤ length (word (skip_spaces (c_string (take 2047 (b ∷ bs)))))
    → handle_client dir open_file (b ∷ bs) ≡ overflow
unfolding handle_client
long_method dir open_file b bs l =
    let n = length (word (skip_spaces (c_string (take 2047 (b ∷ bs))))) in
    elim (Bool-cases (ltb n 10)) [
      | inl t ↦ absurd (omega (arith, ltb→lt n 10 t))
      | inr f ↦ ground (arith, f)
    ]

-- The place where a first word of ten characters or more is written has room for nine of them:
-- every such request that is not cut short writes beyond the array.
pub handle_client-overflow :
    (dir : Text) (open_file : Text → Opened) (method rest : List ℕ)
    → is_plain method ≡ true
    → 10 ≤ length method
    → length method < 2047
    → handle_client dir open_file (method ++ (32 ∷ rest)) ≡ overflow
handle_client-overflow dir open_file [] rest h l m = absurd (omega arith)
handle_client-overflow dir open_file (c ∷ cs) rest h l m =
    let behind = c_string (take (2047 - suc (length (c ∷ cs))) rest) in
    let first : word (skip_spaces (c_string (take 2047 ((c ∷ cs) ++ (32 ∷ rest))))) ≡ c ∷ cs =
      rw
        (
          received_word 2047 (c ∷ cs) rest h m,
          skip_spaces_plain (c ∷ cs) (32 ∷ behind) h (omega arith),
        )
        (word_plain (c ∷ cs) behind h) in
    long_method dir open_file c (cs ++ (32 ∷ rest)) (rw (first) l)
