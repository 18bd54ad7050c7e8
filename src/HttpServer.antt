-- ===== src/HttpServer.antt =====
-- 12-server/main.c: a web server of worker threads that sends the files of one directory. Here is
-- what a worker makes of its events; Startup has `main` and the signal handler.
--
-- The file system and what the sockets receive are arguments. A write to a client is taken to send
-- all of its bytes; what `sendfile` sends is an argument.
pub mod Path
pub mod Request
pub mod Framing
pub mod Worker
pub mod Startup
pub mod Shutdown
mod Tests
use otus_c.Common.{ℕ, zero, suc, ◌+◌, Bool, true, false, ◌&&◌, ◌||◌, not}
use otus_c.Common.{Option, none, some, List, [], ◌∷◌, ◌++◌, ltb, ◌==◌, if◌then◌else◌}
use otus_c.Common.{c_string, Text, text, is_space, length, take, drop, decimal}

abbrev pub not_found_response : Text
not_found_response =
    text
      "HTTP/1.1 404 Not Found\r\nContent-Type: text/plain\r\nContent-Length: 16\r\nConnection: close\r\n\r\nFile not found\r\n"

abbrev pub bad_request : Text
bad_request =
    text
      "HTTP/1.1 400 Bad Request\r\nContent-Type: text/plain\r\nContent-Length: 13\r\nConnection: close\r\n\r\nBad request\r\n"

abbrev pub denied_request : Text
denied_request =
    text
      "HTTP/1.1 403 Forbidden\r\nContent-Length: 15\r\nConnection: close\r\n\r\nAccess denied\r\n"

abbrev pub server_error : Text
server_error =
    text
      "HTTP/1.1 500 Internal Server Error\r\nContent-Length: 21\r\nConnection: close\r\n\r\nInternal server error\r\n"

-- Only 25 bytes of the text are written.
abbrev pub unparsed_response : Text
unparsed_response = take 25 (
    text
      "HTTP/1.1 400 Bad Request\r\nContent-Type: text/plain\r\nContent-Length: 13\r\nConnection: close\r\n\r\nCould not parse argyments")

-- `%s`: the spaces are skipped, and the word runs up to the next space.
pub skip_spaces : Text → Text
skip_spaces [] = []
skip_spaces (c ∷ cs) = let rest = skip_spaces cs in if is_space c then rest else c ∷ cs

pub word : Text → Text
word [] = []
word (c ∷ cs) = let rest = word cs in if is_space c then [] else c ∷ rest

pub after_word : Text → Text
after_word [] = []
after_word (c ∷ cs) = let rest = after_word cs in if is_space c then c ∷ cs else rest

-- `sscanf(buffer, "%s %s", method, uri)`; a word that is missing is empty.
pub scan_words : Text → Text × Text
unfolding skip_spaces word after_word
scan_words buffer =
    let front = skip_spaces buffer in (word front, word (skip_spaces (after_word front)))

-- `strncmp(t, prefix, strlen(prefix)) == 0`
pub has_prefix : Text → Text → Bool
has_prefix t [] = true
has_prefix [] (p ∷ ps) = false
has_prefix (c ∷ cs) (p ∷ ps) = c == p && has_prefix cs ps

-- `strstr(t, part)`: the text from the first place where the part stands.
pub strstr : Text → Text → Option Text
unfolding has_prefix
strstr part [] = if has_prefix [] part then some [] else none
strstr part (c ∷ cs) =
    let rest = strstr part cs in if has_prefix (c ∷ cs) part then some (c ∷ cs) else rest

-- `strchr(t, c)`, for a `c` that is not zero.
pub strchr : ℕ → Text → Option Text
strchr a [] = none
strchr a (c ∷ cs) = let rest = strchr a cs in if c == a then some (c ∷ cs) else rest

pub is_found : Option Text → Bool
is_found none = false
is_found (some t) = true

-- `%n[^stop]`
pub scan_until : ℕ → ℕ → Text → Text
scan_until stop zero cs = []
scan_until stop (suc n) [] = []
scan_until stop (suc n) (c ∷ cs) =
    let rest = scan_until stop n cs in if c == stop then [] else c ∷ rest

-- The file name of a query; empty where there is none.
pub query_name : Text → Text
unfolding strstr scan_until
query_name query_start = elim (strstr (text "name=") query_start) [
  | none ↦ []
  | some name_key ↦ scan_until b'&' 255 (drop 5 name_key)
]

pub is_refused : Text → Bool
unfolding strstr strchr is_found
is_refused filename =
    length filename == 0
    || (is_found (strstr (text "..") filename)
        || (is_found (strchr b'/' filename) || is_found (strchr b'\\' filename)))

-- What `open` gives: a descriptor, by the size that `fstat` tells and the bytes that `sendfile`
-- then sends, or an error.
pub data Opened : Type 0 where
  descriptor : ℕ → List ℕ → Opened
  enoent eacces other_error : Opened

abbrev pub headers : ℕ → Text
headers file_size =
    text "HTTP/1.1 200 OK\r\nContent-Type: text/plain\r\nContent-Length: "
    ++ (decimal 19 file_size ++ text "\r\nConnection: close\r\n\r\n")

pub answer : Opened → Text
answer (descriptor file_size body) = headers file_size ++ body
answer enoent = not_found_response
answer eacces = denied_request
answer other_error = server_error

-- What is done for a client: the path that is opened, if one is, and what is sent; or a write
-- beyond an array.
pub data Handled : Type 0 where
  replied : Option Text → Text → Handled
  overflow : Handled

abbrev pub full_path : Text → Text → Text
full_path dir filename = dir ++ (b'/' ∷ filename)

abbrev pub path_max : ℕ
path_max = 4096

-- From the name on: its guards, and the file.
pub send_file : Text → (Text → Opened) → Text → Handled
unfolding is_refused answer
send_file dir open_file filename =
    if is_refused filename
    then replied none bad_request
    else if ltb (length (full_path dir filename)) path_max
    then replied (some (full_path dir filename)) (answer (open_file (full_path dir filename)))
    else overflow

abbrev pub parsed_uri : Text → Text
parsed_uri [] = []
parsed_uri (c ∷ cs) = if c == b'/' then cs else c ∷ cs

-- From the two words of the request on.
pub respond : Text → (Text → Opened) → Text → Text → Handled
unfolding has_prefix strchr query_name send_file
respond dir open_file method uri =
    if not (has_prefix method (text "GET"))
    then replied none denied_request
    else if not (has_prefix uri (take 7 (text "/files?")))
    then replied none not_found_response
    else elim (strchr b'?' (parsed_uri uri)) [
      | none ↦ replied none bad_request
      | some query_start ↦ send_file dir open_file (query_name query_start)
    ]

-- The branch for a client: `received` is what `recv` could read, empty if it fails. The words are
-- written into arrays of 10 and 1024.
pub handle_client : Text → (Text → Opened) → List ℕ → Handled
unfolding c_string scan_words respond
handle_client dir open_file [] = replied none []
handle_client dir open_file (b ∷ bs) =
    let (method, uri) = scan_words (c_string (take 2047 (b ∷ bs))) in
    if not (ltb (length method) 10 && ltb (length uri) 1024)
    then overflow
    else if length uri == 0
    then replied none unparsed_response
    else respond dir open_file method uri
