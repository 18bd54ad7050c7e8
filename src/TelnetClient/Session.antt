-- ===== src/TelnetClient/Session.antt =====
-- What 11-client/main.c collects of an answer and prints.
use otus_c.Common.{
  ℕ, zero, suc, ◌+◌, ◌-◌, ◌<◌, ◌≤◌, ◌≡◌, ◌⊎◌, refl, sym, ap, ◌∙◌, arith, Bool, true, false,
}
use otus_c.Common.{
  List, [], ◌∷◌, ◌++◌, append_assoc, append-nil, ltb, ◌==◌, if◌then◌else◌, length, take,
}
use otus_c.Common.{
  some, Text, Bool-cases, inl, inr, length-append, map, drop, drop-append, drop_all, ltb→lt, ltb→le,
}
use otus_c.TelnetClient.{
  scan_substring, string_has_substring, string_to_find2, collect, print_bytes, bytes,
}
use otus_c.TelnetClient.{Network, main, ask, full_command, get_ip_addr_by_name, greet, buf_size}

abbrev pub from_newline : List ℕ → List ℕ
from_newline [] = []
from_newline (b ∷ bs) = if b == b'\n' then b ∷ bs else from_newline bs

abbrev pub but_last : List ℕ → List ℕ
but_last [] = []
but_last (b ∷ []) = []
but_last (b ∷ c ∷ bs) = b ∷ but_last (c ∷ bs)

print_bytes-but_last : (bs : List ℕ) → print_bytes true bs ≡ but_last bs
print_bytes-but_last [] = refl
print_bytes-but_last (b ∷ []) = refl
print_bytes-but_last (b ∷ c ∷ bs) = ap (λ l. b ∷ l) (print_bytes-but_last (c ∷ bs))

print_bytes-from_newline : (bs : List ℕ) → print_bytes false bs ≡ but_last (from_newline bs)
print_bytes-from_newline [] = refl
print_bytes-from_newline (b ∷ []) = elim (Bool-cases (b == b'\n')) [
  | inl p ↦ rw (p) refl
  | inr p ↦ rw (p) refl
]
print_bytes-from_newline (b ∷ c ∷ bs) = elim (Bool-cases (b == b'\n')) [
  | inl p ↦ rw (p) (ap (λ l. b ∷ l) (print_bytes-but_last (c ∷ bs)))
  | inr p ↦ rw (p) (print_bytes-from_newline (c ∷ bs))
]

abbrev pub join : List (List ℕ) → List ℕ
join [] = []
join (c ∷ cs) = c ++ join cs

-- Each part of the answer has a byte at least.
abbrev pub AllFull : List (List ℕ) → Type 0
AllFull [] = Unit
AllFull (c ∷ cs) = (0 < length c) × AllFull cs

-- Whether there is a newline among some bytes but those of telnet commands; `skip` of them are still
-- those of one.
abbrev pub has_newline : ℕ → List ℕ → Bool
has_newline skip [] = false
has_newline (suc skip) (b ∷ rest) = has_newline skip rest
has_newline zero (b ∷ rest) =
    let behind_command = has_newline 2 rest in
    let next = has_newline 0 rest in
    if b == 255 then behind_command else if b == b'\n' then true else next

-- The parts of an answer up to the one, behind `offset` bytes, that has a newline among its first
-- bytes, as many as it is longer than `offset`.
abbrev pub collected : ℕ → List (List ℕ) → List (List ℕ)
collected offset [] = []
collected offset (c ∷ cs) =
    let more = collected (offset + length c) cs in
    if has_newline 0 (take (length c - offset) c) then c ∷ [] else c ∷ more

take_all : (n : ℕ) (c : List ℕ) → length c ≤ n → take n c ≡ c
take_all zero [] l = refl
take_all zero (x ∷ c) l = absurd (omega arith)
take_all (suc n) [] l = refl
take_all (suc n) (x ∷ c) l = ap (λ l. x ∷ l) (take_all n c (omega arith))

take-nil : (n : ℕ) → take {A = ℕ} n [] ≡ []
take-nil zero = refl
take-nil (suc n) = refl

left_cases :
    (size i : ℕ)
    → ((size - i ≡ suc (size - suc i)) × (i < size))
      ⊎ ((size - i ≡ 0) × (size - suc i ≡ 0) × (size ≤ i))
left_cases size i = elim (Bool-cases (ltb i size)) [
  | inl e ↦ let h = ltb→lt i size e in inl (omega arith, h)
  | inr e ↦ let h = ltb→le i size e in inr (omega arith, omega arith, h)
]

within : (size i : ℕ) → i < size → ltb (size + 1) (2 + i) ≡ false
within size i h = ground arith

beyond : (size i : ℕ) → size ≤ i → ltb (size + 1) (2 + i) ≡ true
beyond size i h = ground arith

-- The search for "\n." finds its first character, in the part of the bytes that its guard leaves.
scan_substring-newline :
    (size skip i : ℕ) (l : List ℕ)
    → scan_substring size string_to_find2 skip i 0 l ≡ has_newline skip (take (size - i) l)
scan_substring-newline size skip i [] = rw (take-nil (size - i)) refl
scan_substring-newline size (suc skip) i (b ∷ l) = elim (left_cases size i) [
  | inl (e, h) ↦ rw (e) (scan_substring-newline size skip (suc i) l)
  | inr (e, f, h) ↦
      rw (e) (scan_substring-newline size skip (suc i) l ∙ ap (λ n. has_newline skip (take n l)) f)
]
scan_substring-newline size zero i (b ∷ l) =
    let in_command = scan_substring-newline size 2 (suc i) l in
    let later = scan_substring-newline size 0 (suc i) l in
    elim (left_cases size i) [
      | inl (e, h) ↦ elim (Bool-cases (b == 255)) [
        | inl c ↦ rw (e, c) in_command
        | inr c ↦ elim (Bool-cases (b == b'\n')) [
          | inl d ↦ rw (e, c, within size i h, d) refl
          | inr d ↦ rw (e, c, within size i h, d) later
        ]
      ]
      | inr (e, f, h) ↦ elim (Bool-cases (b == 255)) [
        | inl c ↦ rw (e, c) (in_command ∙ ap (λ n. has_newline 2 (take n l)) f)
        | inr c ↦ rw (e, c, beyond size i h) refl
      ]
    ]

-- Where the collecting of an answer stops.
stops-newline :
    (buffer c : List ℕ)
    → string_has_substring (buffer ++ c) (length buffer) (length c) string_to_find2
      ≡ has_newline 0 (take (length c - length buffer) c)
unfolding string_has_substring
stops-newline buffer c =
    let rest : drop (length buffer) (buffer ++ c) ≡ c =
      drop-append (length buffer) buffer c (omega arith)
      ∙ ap (λ l. l ++ c) (drop_all (length buffer) buffer (omega arith)) in
    ap (λ l. scan_substring (length c) string_to_find2 0 (length buffer) 0 l)
      (ap (take (length c)) rest ∙ take_all (length c) c (omega arith))
    ∙ scan_substring-newline (length c) 0 (length buffer) c

same_if : (b : Bool) → (if b then true else false) ≡ b
same_if true = refl
same_if false = refl

collect-collected :
    (cs : List (List ℕ)) (buffer : List ℕ)
    → AllFull cs
    → length buffer + length (join cs) ≤ buf_size
    → collect (map bytes cs) buffer ≡ (buffer ++ join (collected (length buffer) cs), true)
unfolding collect
collect-collected [] buffer f l = ap (λ b. (b, true)) (sym (append-nil buffer))
collect-collected ([] ∷ cs) buffer f l = absurd (omega (arith, f.0))
collect-collected ((b ∷ c) ∷ cs) buffer f l =
    let whole : take (buf_size - length buffer) (b ∷ c) ≡ b ∷ c =
      take_all (buf_size - length buffer) (b ∷ c)
        (omega (arith, length-append (b ∷ c) (join cs), l)) in
    let buffer' = buffer ++ (b ∷ c) in
    let last : buffer' ≡ buffer ++ ((b ∷ c) ++ []) =
      ap (λ l. buffer ++ l) (sym (append-nil (b ∷ c))) in
    let same = stops-newline buffer (b ∷ c) in
    let stop = has_newline 0 (take (length (b ∷ c) - length buffer) (b ∷ c)) in
    elim (Bool-cases stop) [
      | inl p ↦ rw (collect, whole, same, p) (ap (λ b. (b, true)) last)
      | inr p ↦
          let fits : length buffer' + length (join cs) ≤ buf_size =
            omega (arith, length-append (b ∷ c) (join cs), length-append buffer (b ∷ c), l) in
          let e : collect (map bytes cs) buffer'
              ≡ (buffer' ++ join (collected (length buffer + length (b ∷ c)) cs), true) =
            collect-collected cs buffer' f.1 fits
            ∙ ap (λ o. (buffer' ++ join (collected o cs), true)) (length-append buffer (b ∷ c)) in
          rw (collect, whole, same, p)
            (e
              ∙ ap (λ b. (b, true))
                  (append_assoc buffer (b ∷ c)
                    (join (collected (length buffer + length (b ∷ c)) cs))))
    ]

-- Where no call fails but maybe `connect`: the client sends its command and prints what it has
-- collected from the first newline on, but the last byte. It collects the parts of the answer up to
-- the first in which there is a newline, outside of telnet commands, among its first bytes, as many
-- as it is longer than the parts before it together; or all parts. Its exit code tells whether
-- `connect` succeeded.
pub main-collect :
    (k : Network) (font message dst_ip : Text) (cs : List (List ℕ))
    → k.socket ≡ true
    → k.setsockopt ≡ true
    → get_ip_addr_by_name k.addresses k.memory ≡ some dst_ip
    → k.inet_pton ≡ true
    → (greet k.greeting).0 ≡ true
    → k.send ≡ true
    → k.answer ≡ map bytes cs
    → AllFull cs
    → length (join cs) ≤ buf_size
    → main k font message ≡ record {
      success = k.connect;
      sent = some (full_command font message);
      printed = but_last (from_newline (join (collected 0 cs)));
      closed = true;
    }
unfolding main ask
main-collect k font message dst_ip cs a b c d e f g h l =
    let r = collect-collected cs [] h (omega (arith, l)) in
    let shown = print_bytes-from_newline (join (collected 0 cs)) in
    let ok = same_if k.connect in rw (main, a, b, c, d, e, ask, f, g, r, shown, ok) refl
