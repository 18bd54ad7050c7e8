-- ===== src/RarJpg/Listing.antt =====
-- The listing of 1-rarjpeg/main.c, on a central directory as it is written into an archive.
use otus_c.Common.{c_string, ℕ, zero, suc, ◌+◌, ◌/◌, ◌%◌, ◌<◌, ◌≡◌, refl, ap, ◌∙◌}
use otus_c.Common.{true, List, [], ◌∷◌, ◌++◌, arith, length}
use otus_c.Common.{take, drop, drop-drop}
use otus_c.RarJpg.{le_value, Stale, signature_at, fields_at}
use otus_c.RarJpg.{print_all_filenames, add_name, Printed}

-- A file header of the central directory: 24 bytes, three lengths, 12 bytes, and three texts.
pub record Entry : Type 0 where
  pub versions : List ℕ
  pub attributes : List ℕ
  pub name : List ℕ
  pub extra : List ℕ
  pub comment : List ℕ

abbrev pub IsEntry : Entry → Type 0
IsEntry e =
    (length e.versions ≡ 24)
    × (length e.attributes ≡ 12)
    × (length e.name < 65536)
    × (length e.extra < 65536)
    × (length e.comment < 65536)

abbrev pub le16 : ℕ → List ℕ
le16 n = n % 256 ∷ n / 256 ∷ []

abbrev pub texts : Entry → List ℕ → List ℕ
texts e rest = e.name ++ (e.extra ++ (e.comment ++ rest))

abbrev pub lengths : Entry → List ℕ → List ℕ
lengths e rest =
    le16 (length e.name) ++ (le16 (length e.extra) ++ (le16 (length e.comment) ++ rest))

-- The headers in order, and what stands behind them.
abbrev pub directory : List Entry → List ℕ → List ℕ
directory [] rest = rest
directory (e ∷ es) rest =
    0x50 ∷ 0x4b ∷ 1 ∷ 2 ∷ (e.versions ++ lengths e (e.attributes ++ texts e (directory es rest)))

abbrev pub AllEntries : List Entry → Type 0
AllEntries [] = Unit
AllEntries (e ∷ es) = IsEntry e × AllEntries es

drop_exact : (n : ℕ) (xs ys : List ℕ) → length xs ≡ n → drop n (xs ++ ys) ≡ ys
drop_exact zero [] ys h = refl
drop_exact zero (x ∷ xs) ys h = absurd (omega arith)
drop_exact (suc n) [] ys h = absurd (omega arith)
drop_exact (suc n) (x ∷ xs) ys h = drop_exact n xs ys (omega arith)

take_exact : (xs ys : List ℕ) → take (length xs) (xs ++ ys) ≡ xs
take_exact [] ys = refl
take_exact (x ∷ xs) ys = ap (λ t. x ∷ t) (take_exact xs ys)

le16_lem : (n : ℕ) → n < 65536 → le_value (le16 n) ≡ n
le16_lem n h = omega arith

module _ (file : List ℕ) (o : ℕ) (e : Entry) (rest : List ℕ) (v : IsEntry e) where
  at_lengths :
      drop o file ≡ 0x50 ∷ 0x4b ∷ 1 ∷ 2 ∷ (e.versions ++ lengths e (e.attributes ++ texts e rest))
      → drop (o + 28) file ≡ lengths e (e.attributes ++ texts e rest)
  at_lengths h =
      rw (← drop-drop 28 o file, h)
        (drop_exact 24 e.versions (lengths e (e.attributes ++ texts e rest)) v.0)

  at_texts :
      drop (o + 28) file ≡ lengths e (e.attributes ++ texts e rest)
      → drop (o + 46) file ≡ texts e rest
  at_texts h =
      ap (λ k. drop k file) {x = o + 46} {y = o + 28 + 18} (omega arith)
      ∙ rw (← drop-drop 18 (o + 28) file, h) (drop_exact 12 e.attributes (texts e rest) v.1)

  at_next :
      drop (o + 46) file ≡ texts e rest
      → drop (o + 46 + length e.name + length e.extra + length e.comment) file ≡ rest
  at_next h =
      rw
        (
          ← drop-drop (length e.comment) (o + 46 + length e.name + length e.extra) file,
          ← drop-drop (length e.extra) (o + 46 + length e.name) file,
          ← drop-drop (length e.name) (o + 46) file,
          h,
          drop_exact (length e.name) e.name (e.extra ++ (e.comment ++ rest)) refl,
          drop_exact (length e.extra) e.extra (e.comment ++ rest) refl,
        )
        (drop_exact (length e.comment) e.comment rest refl)

  fields_read :
      (s : Stale)
      → drop (o + 28) file ≡ lengths e (e.attributes ++ texts e rest)
      → fields_at s (o + 28) file ≡ record {
        file_name_length = length e.name;
        extra_field_length = length e.extra;
        file_length = length e.comment;
      }
  unfolding fields_at
  fields_read s h =
      rw
        (
          ← drop-drop 2 (o + 28) file,
          ← drop-drop 4 (o + 28) file,
          h,
          le16_lem (length e.name) v.2,
          le16_lem (length e.extra) v.3,
          le16_lem (length e.comment) v.4,
        )
        refl

signature_read :
    (file : List ℕ) (o : ℕ) (s : Stale) (a b c d : ℕ) (rest : List ℕ)
    → drop o file ≡ a ∷ b ∷ c ∷ d ∷ rest
    → signature_at s o file ≡ le_value (a ∷ b ∷ c ∷ d ∷ [])
unfolding signature_at
signature_read file o s a b c d rest h = rw (h) refl

abbrev pub entry_name : Entry → List ℕ
entry_name e = c_string e.name

-- All the names, a write beyond an array for each, and an end.
abbrev pub listing : List Entry → Printed
listing [] = record { names = []; beyond = 0; ended = true }
listing (e ∷ es) = add_name (c_string e.name) (listing es)

-- The central directory that stands at an offset of a file, with the signature of the end record
-- behind it, is listed as a whole, in as many rounds as it has headers and one more: each name up to
-- its first zero, in order; and for each of them a zero is written behind the array of the name.
pub print_all_filenames-directory :
    (stale : ℕ → Stale) (file : List ℕ) (es : List Entry) (rest : List ℕ) (o : ℕ)
    → AllEntries es
    → drop o file ≡ directory es (0x50 ∷ 0x4b ∷ 5 ∷ 6 ∷ rest)
    → print_all_filenames stale file (suc (length es)) o ≡ listing es
unfolding print_all_filenames
print_all_filenames-directory stale file [] rest o v h =
    rw (signature_read file o (stale 0) 0x50 0x4b 5 6 rest h) refl
print_all_filenames-directory stale file (e ∷ es) rest o v h =
    let after = directory es (0x50 ∷ 0x4b ∷ 5 ∷ 6 ∷ rest) in
    let s = stale (suc (length es)) in
    let l = at_lengths file o e after v.0 h in
    let t = at_texts file o e after v.0 l in
    let n = at_next file o e after v.0 t in
    rw
      (
        fields_read file o e after v.0 s l,
        t,
        take_exact e.name (e.extra ++ (e.comment ++ after)),
        take_exact e.name (s.name (length e.name)),
        signature_read file o s 0x50 0x4b 1 2
            (e.versions ++ lengths e (e.attributes ++ texts e after)) h,
      )
      (ap (add_name (c_string e.name)) (
        print_all_filenames-directory stale file es rest
          (o + 46 + length e.name + length e.extra + length e.comment) v.1 n))
