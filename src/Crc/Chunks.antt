-- ===== src/Crc/Chunks.antt =====
-- The loop of 9-crc32/main.c over the mapped chunks: its result is that of the whole file.
use native.Mathlib.Nat.{mul-mod_left, mod_self}
use otus_c.Common.{ℕ, zero, suc, ◌+◌, ◌-◌, ◌/◌, ◌%◌, ◌^◌, ◌≤◌, ◌<◌, ◌≡◌, ◌≢◌, refl, ap}
use otus_c.Common.{
  List, [], ◌∷◌, ◌++◌, arith, ltb, ltb→lt, ltb→le, Bool, Bool-cases, inl, inr, true,
}
use otus_c.Common.{
  length, min, drop_all, length-drop, take, drop, drop-drop, drop-nil, some, Option-cases,
}
use otus_c.Crc.{
  crc32_bitwise, crc32_bytes, default_chunk, chunk_size, map_len, chunks, main, System, printed,
  stuck,
}
use otus_c.Crc.Poly.{IsBytes, crc32_bytes-change, crc32_bytes_lt}

IsBytes-append : (xs ys : List ℕ) → IsBytes xs → IsBytes ys → IsBytes (xs ++ ys)
IsBytes-append [] ys h k = k
IsBytes-append (x ∷ xs) ys (h, hs) k = (h, IsBytes-append xs ys hs k)

div_pos : (n p : ℕ) → 0 < p → p ≤ n → 0 < n / p
div_pos n p h k = grind arith

-- The default chunk cut down to whole pages, or one page that is larger: never empty, and always
-- whole pages, so that every offset handed to `mmap` is one that it accepts.
pub chunk_size_lem :
    (page_size : ℕ)
    → 0 < page_size
    → (0 < chunk_size page_size) × (chunk_size page_size % page_size ≡ 0)
unfolding chunk_size
chunk_size_lem page_size h = elim (Bool-cases (ltb default_chunk page_size)) [
  | inl big ↦ rw big (h, mod_self page_size)
  | inr small ↦
      let pages = default_chunk / page_size in
      let some_page : 0 < pages =
        div_pos default_chunk page_size h (ltb→le default_chunk page_size small) in
      rw small (grind arith, mul-mod_left (default_chunk / page_size) page_size)
]

-- A prefix and what follows it, where the prefix ends with the file.
crc32_bytes-take-drop :
    (crc n m : ℕ) (bs : List ℕ)
    → m ≡ min n (length bs)
    → crc32_bytes (crc32_bytes crc (take m bs)) (drop n bs) ≡ crc32_bytes crc bs
unfolding crc32_bytes
crc32_bytes-take-drop crc n zero [] h = rw drop-nil
crc32_bytes-take-drop crc n (suc m) [] h = absurd (omega arith)
crc32_bytes-take-drop crc zero zero (b ∷ bs) h = refl
crc32_bytes-take-drop crc zero (suc m) (b ∷ bs) h = absurd (omega arith)
crc32_bytes-take-drop crc (suc n) zero (b ∷ bs) h = absurd (omega arith)
crc32_bytes-take-drop crc (suc n) (suc m) (b ∷ bs) h =
    crc32_bytes-take-drop (crc32_bitwise crc b) n m bs (omega arith)

module _ (maps : ℕ → ℕ → Bool) (file : List ℕ) (chunk : ℕ) (ok : (o l : ℕ) → maps o l ≡ true)
    (positive : 0 < chunk) where
  map_len-min :
      (offset : ℕ) → map_len maps file chunk offset ≡ min chunk (length (drop offset file))
  unfolding map_len
  map_len-min offset = ground (arith, length-drop offset file)

  chunks-printed :
      (fuel offset crc : ℕ)
      → length file - offset < fuel
      → chunks maps file chunk fuel offset crc
        ≡ printed (2 ^ 32 - 1 - crc32_bytes crc (drop offset file))
  unfolding chunks
  chunks-printed zero offset crc l = absurd (omega arith)
  chunks-printed (suc fuel) offset crc l = elim (Bool-cases (ltb offset (length file))) [
    | inl more ↦
        let left = ltb→lt offset (length file) more in
        rw (more, ok, chunks-printed fuel (offset + chunk) _ (omega arith), ← drop-drop)
          (ap (λ c. printed (2 ^ 32 - 1 - c))
            (crc32_bytes-take-drop crc chunk _ (drop offset file) (map_len-min offset)))
    | inr done ↦ rw (done, drop_all offset file (ltb→le _ _ done))
  ]

chunks-ne-stuck :
    (maps : ℕ → ℕ → Bool) (file : List ℕ) (chunk fuel offset crc : ℕ)
    → 0 < chunk
    → length file - offset < fuel
    → chunks maps file chunk fuel offset crc ≢ stuck
unfolding chunks
chunks-ne-stuck maps file chunk zero offset crc h l = absurd (omega arith)
chunks-ne-stuck maps file chunk (suc fuel) offset crc h l = ground (
  arith,
  chunks-ne-stuck maps file chunk fuel (offset + chunk)
      (crc32_bytes crc (take (map_len maps file chunk offset) (drop offset file))) h,
)

-- The program ends, whatever the file, the arguments and the calls that fail, on a system with
-- pages: its loop over the chunks comes to an end.
pub main_terminates : (s : System) (argc : ℕ) → 0 < s.page_size → main s argc ≢ stuck
unfolding main
main_terminates s argc h = elim (Option-cases s.contents) [
  | inl e ↦ ground (arith, e)
  | inr (file, e) ↦ ground (
    arith,
    e,
    chunks-ne-stuck s.maps file (chunk_size s.page_size) (suc (length file)) 0 0xFFFFFFFF
        (chunk_size_lem s.page_size h).0,
  )
]

-- The chunks do not show: with one argument, a file that opens, and no call that fails, on any
-- system with pages, the value printed is the complement of the CRC of the whole file.
pub main-printed :
    (s : System) (file : List ℕ)
    → s.contents ≡ some file
    → s.stats ≡ true
    → 0 < s.page_size
    → ((o l : ℕ) → s.maps o l ≡ true)
    → main s 2 ≡ printed (2 ^ 32 - 1 - crc32_bytes 0xFFFFFFFF file)
unfolding main
main-printed s file e f h ok = ground (
  arith,
  e,
  f,
  chunks-printed s.maps file (chunk_size s.page_size) ok (chunk_size_lem s.page_size h).0
      (suc (length file)) 0 0xFFFFFFFF (omega arith),
)

-- Two files that differ in one byte, of any length and at any place, are printed different values
-- for, each on a system with pages where no call fails.
pub main_tells_change :
    (s t : System) (b b' : ℕ) (xs ys : List ℕ)
    → IsBytes xs
    → IsBytes ys
    → b < 256
    → b' < 256
    → b ≢ b'
    → s.contents ≡ some (xs ++ (b ∷ ys))
    → t.contents ≡ some (xs ++ (b' ∷ ys))
    → (s.stats ≡ true) × (t.stats ≡ true)
    → (0 < s.page_size) × (0 < t.page_size)
    → ((o l : ℕ) → s.maps o l ≡ true)
    → ((o l : ℕ) → t.maps o l ≡ true)
    → main s 2 ≢ main t 2
main_tells_change s t b b' xs ys hx hy hb hb' ne es et (fs, ft) (ps, pt) os ot same =
    crc32_bytes-change 0xFFFFFFFF b b' xs ys (omega arith) hb hb' hx hy ne
      (omega (arith, values, below b hb, below b' hb'))
  where
    below : (c : ℕ) → c < 256 → crc32_bytes 0xFFFFFFFF (xs ++ (c ∷ ys)) < 2 ^ 32
    below c h =
        crc32_bytes_lt 0xFFFFFFFF (xs ++ (c ∷ ys)) (omega arith)
          (IsBytes-append xs (c ∷ ys) hx (h, hy))

    values :
        2 ^ 32 - 1 - crc32_bytes 0xFFFFFFFF (xs ++ (b ∷ ys))
        ≡ 2 ^ 32 - 1 - crc32_bytes 0xFFFFFFFF (xs ++ (b' ∷ ys))
    values = cc (main-printed s _ es fs ps os, main-printed t _ et ft pt ot, same)
