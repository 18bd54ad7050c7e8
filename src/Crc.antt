-- ===== src/Crc.antt =====
-- 9-crc32/main.c: the CRC-32 of a file that is mapped piece by piece.
--
-- A `uint32_t` is a number below 2 ^ 32, a `char` its bit pattern below 256 (it is signed here). The
-- system's answers are arguments: the file, the page size, and which calls fail.
pub mod Poly
pub mod Chunks
mod Tests
use Prim.Native.Nat.{bit_and, bit_xor}
use otus_c.Common.{ℕ, zero, suc, ◌+◌, ◌-◌, ◌*◌, ◌/◌, ◌%◌, ◌^◌, Bool, Option, none, some, not}
use otus_c.Common.{List, [], ◌∷◌, ltb, ◌==◌, if◌then◌else◌, length, take, drop}

-- A signed `char` as an operand of `^` with a `uint32_t`.
abbrev pub promote : ℕ → ℕ
promote ch = if ltb ch 128 then ch else ch + (2 ^ 32 - 256)

-- `ch >>= 1` keeps the sign.
abbrev pub shift_char : ℕ → ℕ
shift_char ch = if ltb ch 128 then ch / 2 else ch / 2 + 128

-- The loop over the bits, `left` rounds before its end.
pub crc32_rounds : ℕ → ℕ → ℕ → ℕ
crc32_rounds zero crc ch = crc
crc32_rounds (suc left) crc ch =
    let b = bit_and (bit_xor (promote ch) crc) 1 in
    crc32_rounds left (if b == 0 then crc / 2 else bit_xor (crc / 2) 0xEDB88320) (shift_char ch)

pub crc32_bitwise : ℕ → ℕ → ℕ
unfolding crc32_rounds
crc32_bitwise crc ch = crc32_rounds 8 crc ch

-- The loop over the bytes of one mapping.
pub crc32_bytes : ℕ → List ℕ → ℕ
unfolding crc32_bitwise
crc32_bytes crc [] = crc
crc32_bytes crc (ch ∷ chs) = crc32_bytes (crc32_bitwise crc ch) chs

-- `CHUNK_SIZE` and its adjustment to pages.
abbrev pub default_chunk : ℕ
default_chunk = 1024 * 1024 * 1000

pub chunk_size : ℕ → ℕ
chunk_size page_size =
    if ltb default_chunk page_size then page_size else (default_chunk / page_size) * page_size

-- How `main` ends: it prints the CRC, or exits with status 1. `stuck` is a loop of the model that
-- ran out of fuel.
pub data Exit : Type 0 where
  printed : ℕ → Exit
  usage no_file no_stat no_map stuck : Exit

-- `contents` is the file, if it opens; `maps offset len` tells whether that `mmap` succeeds.
pub record System : Type 0 where
  pub contents : Option (List ℕ)
  pub stats : Bool
  pub page_size : ℕ
  pub maps : ℕ → ℕ → Bool

module _ (maps : ℕ → ℕ → Bool) (file : List ℕ) (chunk : ℕ) where
  pub map_len : ℕ → ℕ
  map_len offset = if ltb (length file) (offset + chunk) then length file - offset else chunk

  pub chunks : ℕ → ℕ → ℕ → Exit
  unfolding map_len crc32_bytes
  chunks zero offset crc = stuck
  chunks (suc fuel) offset crc =
      let len = map_len offset in
      let next_chunk =
        chunks fuel (offset + chunk) (crc32_bytes crc (take len (drop offset file))) in
      let body = if maps offset len then next_chunk else no_map in
      if ltb offset (length file) then body else printed (2 ^ 32 - 1 - crc)

-- Each round moves on by at least a byte, so one more round than there are bytes is enough.
pub main : System → ℕ → Exit
unfolding chunks chunk_size
main s argc = if not (argc == 2) then usage else elim s.contents [
  | none ↦ no_file
  | some file ↦
      if s.stats
      then chunks s.maps file (chunk_size s.page_size) (suc (length file)) 0 0xFFFFFFFF
      else no_stat
]
