-- ===== src/Crc/Tests.antt =====
-- The check value of CRC-32, and the theorems of 9-crc32/main.c at small files.
use Prim.Native.Nat.{bit_xor}
use otus_c.Common.{ℕ, ◌-◌, ◌^◌, ◌≡◌, ◌≢◌, refl, List, [], ◌∷◌, true, some, arith}
use otus_c.Crc.{System, crc32_bitwise, crc32_bytes, main, printed}
use otus_c.Crc.Poly.{divide_times, crc32_bitwise-divide}
use otus_c.Crc.Chunks.{main-printed, main_tells_change}

abbrev digits : List ℕ
digits = 0x31 ∷ 0x32 ∷ 0x33 ∷ 0x34 ∷ 0x35 ∷ 0x36 ∷ 0x37 ∷ 0x38 ∷ 0x39 ∷ []

abbrev linux : List ℕ → System
linux file = record { contents = some file; stats = true; page_size = 4096; maps = λ o l. true }

check_value : main (linux digits) 2 ≡ printed 0xCBF43926
unfolding main
check_value = refl

crc32_bitwise-divide_example :
    crc32_bitwise 0xFFFFFFFF 0xC3 ≡ divide_times 8 (bit_xor 0xFFFFFFFF 0xC3)
crc32_bitwise-divide_example = crc32_bitwise-divide 0xFFFFFFFF 0xC3 (omega arith)

main-printed_example : main (linux digits) 2 ≡ printed (2 ^ 32 - 1 - crc32_bytes 0xFFFFFFFF digits)
main-printed_example = main-printed (linux digits) digits refl refl (omega arith) (λ o l. refl)

main_tells_change_example : main (linux (1 ∷ 2 ∷ 3 ∷ [])) 2 ≢ main (linux (1 ∷ 130 ∷ 3 ∷ [])) 2
main_tells_change_example =
    main_tells_change (linux (1 ∷ 2 ∷ 3 ∷ [])) (linux (1 ∷ 130 ∷ 3 ∷ [])) 2 130 (1 ∷ []) (3 ∷ [])
      (omega arith) (omega arith) (omega arith) (omega arith) (omega arith) refl refl (refl, refl)
      (omega arith, omega arith) (λ o l. refl) (λ o l. refl)
