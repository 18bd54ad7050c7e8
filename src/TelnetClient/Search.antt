-- ===== src/TelnetClient/Search.antt =====
-- `string_has_substring` of 11-client/main.c finds its text, less the last character.
use otus_c.Common.{
  ℕ, zero, suc, ◌+◌, ◌-◌, ◌<◌, ◌≤◌, ◌≡◌, ◌≢◌, refl, sym, ap, ◌∙◌, arith, true, false,
}
use otus_c.Common.{
  List, [], ◌∷◌, ◌++◌, append_assoc, ltb, ◌==◌, ==→≡, if◌then◌else◌, length, take, drop, get_or,
}
use otus_c.Common.{length-take, length-drop, length-append, Text, Bool-cases, inl, inr}
use otus_c.TelnetClient.{scan_substring, string_has_substring}

-- What is left of the bytes when the telnet commands, byte 255 and the two behind it, are taken out;
-- `skip` bytes of a command are still to come.
abbrev pub without_commands : ℕ → List ℕ → List ℕ
without_commands skip [] = []
without_commands (suc skip) (b ∷ bs) = without_commands skip bs
without_commands zero (b ∷ bs) =
    let behind = without_commands 2 bs in
    let rest = without_commands 0 bs in if b == 255 then behind else b ∷ rest

abbrev pub Occurs : List ℕ → List ℕ → Type 0
Occurs xs ys = (before : List ℕ) × (behind : List ℕ) × (ys ≡ before ++ (xs ++ behind))

take-length : (bs : List ℕ) → take (length bs) bs ≡ bs
take-length [] = refl
take-length (b ∷ bs) = ap (λ l. b ∷ l) (take-length bs)

take-suc :
    (j : ℕ) (xs : List ℕ) → j < length xs → take (suc j) xs ≡ take j xs ++ (get_or xs j 0 ∷ [])
take-suc zero [] l = absurd (omega arith)
take-suc zero (x ∷ xs) l = refl
take-suc (suc j) [] l = absurd (omega arith)
take-suc (suc j) (x ∷ xs) l = ap (λ l. x ∷ l) (take-suc j xs (omega arith))

last : (j n : ℕ) → (suc (suc j) == n) ≡ true → suc j ≡ n - 1
last j n e = ground (arith, e)

scan_substring-Occurs :
    (size : ℕ) (s : Text) (skip i j : ℕ) (bs : List ℕ)
    → suc j < length s
    → scan_substring size s skip i j bs ≡ true
    → Occurs (take (length s - 1) s) (take j s ++ without_commands skip bs)
scan_substring-Occurs size s skip i j [] l e = absurd (ground (arith, e))
scan_substring-Occurs size s (suc skip) i j (b ∷ bs) l e =
    scan_substring-Occurs size s skip (suc i) j bs l e
scan_substring-Occurs size s zero i j (b ∷ bs) l e = elim (Bool-cases (b == 255)) [
  | inl p ↦ rw (p) (scan_substring-Occurs size s 2 (suc i) j bs l (ground (arith, p, e)))
  | inr p ↦ elim (Bool-cases (ltb (size + suc j) (length s + i))) [
    | inl q ↦ absurd (ground (arith, p, q, e))
    | inr q ↦ elim (Bool-cases (b == get_or s j 0)) [
      | inl r ↦
          let w : take (suc j) s ≡ take j s ++ (b ∷ []) =
            take-suc j s (omega arith)
            ∙ ap (λ c. take j s ++ (c ∷ [])) (sym (==→≡ b (get_or s j 0) r)) in
          let v : take j s ++ (b ∷ without_commands 0 bs)
              ≡ take (suc j) s ++ without_commands 0 bs =
            sym (append_assoc (take j s) (b ∷ []) (without_commands 0 bs))
            ∙ ap (λ l. l ++ without_commands 0 bs) (sym w) in
          rw (p, v)
            (elim (Bool-cases (suc (suc j) == length s)) [
              | inl t ↦ (
                [],
                without_commands 0 bs,
                ap (λ n. take n s ++ without_commands 0 bs) (last j (length s) t),
              )
              | inr t ↦
                  scan_substring-Occurs size s 0 (suc i) (suc j) bs (ground (arith, t, l))
                    (ground (arith, p, q, r, t, e))
            ])
      | inr r ↦
          let (before, behind, f) =
            scan_substring-Occurs size s 0 (suc i) 0 bs (omega arith)
              (ground (arith, p, q, r, l, e)) in
          rw (p, f) (take j s ++ (b ∷ before), behind, sym (append_assoc (take j s) (b ∷ before) _))
    ]
  ]
]

-- Where `string_has_substring` finds a text of two or more characters, the text without its last
-- character stands among the bytes without the telnet commands.
pub string_has_substring-Occurs :
    (string : List ℕ) (offset size : ℕ) (s : Text)
    → 1 < length s
    → string_has_substring string offset size s ≡ true
    → Occurs (take (length s - 1) s) (without_commands 0 (take size (drop offset string)))
unfolding string_has_substring
string_has_substring-Occurs string offset size s l e =
    scan_substring-Occurs size s 0 offset 0 (take size (drop offset string)) l e

length-without_commands : (skip : ℕ) (bs : List ℕ) → length (without_commands skip bs) ≤ length bs
length-without_commands skip [] = omega arith
length-without_commands (suc skip) (b ∷ bs) = omega (arith, length-without_commands skip bs)
length-without_commands zero (b ∷ bs) =
    ground (arith, length-without_commands 2 bs, length-without_commands 0 bs)

abbrev pub Lacks : ℕ → List ℕ → Type 0
Lacks c [] = Unit
Lacks c (x ∷ xs) = (x ≢ c) × Lacks c xs

drop-take :
    (n j : ℕ) (xs : List ℕ)
    → j < n
    → n ≤ length xs
    → drop j (take n xs) ≡ get_or xs j 0 ∷ drop (suc j) (take n xs)
drop-take zero j xs l h = absurd (omega arith)
drop-take (suc n) j [] l h = absurd (omega arith)
drop-take (suc n) zero (x ∷ xs) l h = refl
drop-take (suc n) (suc j) (x ∷ xs) l h = drop-take n j xs (omega arith) (omega arith)

-- `j` characters are found, the others stand next.
rest_found :
    (size : ℕ) (s : Text) (skip i j : ℕ) (bs behind : List ℕ)
    → size ≡ i + length bs
    → suc j < length s
    → without_commands skip bs ≡ drop j (take (length s - 1) s) ++ behind
    → scan_substring size s skip i j bs ≡ true
rest_found size s skip i j [] behind e l h =
    let r = drop-take (length s - 1) j s (omega arith) (omega arith) in
    let z : [] ≡ get_or s j 0 ∷ (drop (suc j) (take (length s - 1) s) ++ behind) =
      h ∙ ap (λ l. l ++ behind) r in
    ground (arith, z)
rest_found size s (suc skip) i j (b ∷ bs) behind e l h =
    rest_found size s skip (suc i) j bs behind (omega (arith, e)) l h
rest_found size s zero i j (b ∷ bs) behind e l h = elim (Bool-cases (b == 255)) [
  | inl p ↦
      let h' : without_commands 2 bs ≡ drop j (take (length s - 1) s) ++ behind =
        ground (arith, p, h) in
      rw (p) (rest_found size s 2 (suc i) j bs behind (omega (arith, e)) l h')
  | inr p ↦
      let r = drop-take (length s - 1) j s (omega arith) (omega arith) in
      let h' : b ∷ without_commands 0 bs ≡ drop j (take (length s - 1) s) ++ behind =
        ground (arith, p, h) in
      let h'' : b ∷ without_commands 0 bs
          ≡ get_or s j 0 ∷ (drop (suc j) (take (length s - 1) s) ++ behind) =
        h' ∙ ap (λ l. l ++ behind) r in
      let same : b ≡ get_or s j 0 = cc in
      let more : without_commands 0 bs ≡ drop (suc j) (take (length s - 1) s) ++ behind = cc in
      let known = length-take (length s - 1) s (omega arith) in
      let left = length-drop (suc j) (take (length s - 1) s) in
      let parts = length-append (drop (suc j) (take (length s - 1) s)) behind in
      let enough : length s + i ≤ size + suc j =
        omega (arith, e, known, left, parts, ap length more, length-without_commands 0 bs) in
      let q : ltb (size + suc j) (length s + i) ≡ false = ground (arith, enough) in
      let t : (b == get_or s j 0) ≡ true = ground (arith, same) in
      elim (Bool-cases (suc (suc j) == length s)) [
        | inl u ↦ rw (p, q, t, u) refl
        | inr u ↦
            let v =
              rest_found size s 0 (suc i) (suc j) bs behind (omega (arith, e))
                (ground (arith, u, l)) more in
            rw (p, q, t, u) v
      ]
]

first_found :
    (size : ℕ) (s : Text) (skip i : ℕ) (bs before behind : List ℕ)
    → size ≡ i + length bs
    → 1 < length s
    → Lacks (get_or s 0 0) before
    → without_commands skip bs ≡ before ++ (take (length s - 1) s ++ behind)
    → scan_substring size s skip i 0 bs ≡ true
first_found size s skip i bs [] behind e l k h = rest_found size s skip i 0 bs behind e l h
first_found size s skip i [] (x ∷ before) behind e l k h = absurd (ground (arith, h))
first_found size s (suc skip) i (b ∷ bs) (x ∷ before) behind e l k h =
    first_found size s skip (suc i) bs (x ∷ before) behind (omega (arith, e)) l k h
first_found size s zero i (b ∷ bs) (x ∷ before) behind e l k h = elim (Bool-cases (b == 255)) [
  | inl p ↦
      let h' : without_commands 2 bs ≡ (x ∷ before) ++ (take (length s - 1) s ++ behind) =
        ground (arith, p, h) in
      rw (p) (first_found size s 2 (suc i) bs (x ∷ before) behind (omega (arith, e)) l k h')
  | inr p ↦
      let h' : b ∷ without_commands 0 bs ≡ x ∷ (before ++ (take (length s - 1) s ++ behind)) =
        ground (arith, p, h) in
      let same : b ≡ x = cc in
      let more : without_commands 0 bs ≡ before ++ (take (length s - 1) s ++ behind) = cc in
      let known = length-take (length s - 1) s (omega arith) in
      let parts = length-append (take (length s - 1) s) behind in
      let parts' = length-append before (take (length s - 1) s ++ behind) in
      let enough : length s + i ≤ size + 1 =
        omega (arith, e, known, parts, parts', ap length more, length-without_commands 0 bs) in
      let q : ltb (size + 1) (length s + i) ≡ false = ground (arith, enough) in
      let t : (b == get_or s 0 0) ≡ false = ground (arith, same, k.0) in
      let u : (1 == length s) ≡ false = ground (arith, l) in
      let v = first_found size s 0 (suc i) bs before behind (omega (arith, e)) l k.1 more in
      rw (p, q, t, u) v
]

-- From the start of the buffer `string_has_substring` finds the text without its last character
-- wherever it stands among the bytes without the telnet commands, if its first character does not
-- occur before.
pub string_has_substring-found :
    (bs before behind : List ℕ) (s : Text)
    → 1 < length s
    → Lacks (get_or s 0 0) before
    → without_commands 0 bs ≡ before ++ (take (length s - 1) s ++ behind)
    → string_has_substring bs 0 (length bs) s ≡ true
unfolding string_has_substring
string_has_substring-found bs before behind s l k h =
    rw (take-length bs) (first_found (length bs) s 0 0 bs before behind (omega arith) l k h)

too_far :
    (size : ℕ) (s : Text) (skip i : ℕ) (bs : List ℕ)
    → size + 1 < length s + i
    → scan_substring size s skip i 0 bs ≡ false
too_far size s skip i [] l = refl
too_far size s (suc skip) i (b ∷ bs) l = too_far size s skip (suc i) bs (omega arith)
too_far size s zero i (b ∷ bs) l =
    let q : ltb (size + 1) (length s + i) ≡ true = ground (arith, l) in
    let r = too_far size s 2 (suc i) bs (omega arith) in
    elim (Bool-cases (b == 255)) [ inl p ↦ rw (p) r | inr p ↦ rw (p, q) refl ]

-- Behind an offset that is not smaller than the size, nothing of two or more characters is found,
-- whatever stands there.
pub string_has_substring-offset :
    (string : List ℕ) (offset size : ℕ) (s : Text)
    → 1 < length s
    → size ≤ offset
    → string_has_substring string offset size s ≡ false
unfolding string_has_substring
string_has_substring-offset string offset size s l h =
    too_far size s 0 offset (take size (drop offset string)) (omega arith)
