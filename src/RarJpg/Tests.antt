-- ===== src/RarJpg/Tests.antt =====
-- 1-rarjpeg/main.c on small files, and its theorems there.
use otus_c.Common.{c_string, ℕ, ◌≡◌, refl, some, List, [], ◌∷◌, ◌++◌, replicate, text, arith}
use otus_c.RarJpg.{Stale, jpeg_signature, eocdr_offset, print_all_filenames}
use otus_c.RarJpg.{c_string, main, rarjpeg}
use otus_c.RarJpg.Search.{IsLast, eocdr_offset-IsLast}
use otus_c.RarJpg.Listing.{Entry, directory, listing, AllEntries, print_all_filenames-directory}

abbrev entry : Entry
entry = record {
  versions = replicate 24 0;
  attributes = replicate 12 0;
  name = text "a.txt";
  extra = 1 ∷ [];
  comment = [];
}

-- The rest of the end record: the central directory has 52 bytes.
abbrev end_record : List ℕ
end_record = replicate 8 0 ++ (52 ∷ 0 ∷ 0 ∷ 0 ∷ replicate 6 0)

abbrev rarjpg : List ℕ
rarjpg = jpeg_signature ++ directory (entry ∷ []) (0x50 ∷ 0x4b ∷ 5 ∷ 6 ∷ end_record)

abbrev zeros : ℕ → Stale
zeros n = record {
  signature = 0;
  fields = record { file_name_length = 0; extra_field_length = 0; file_length = 0 };
  name = λ k. [];
}

checks : main (λ name. some rarjpg) zeros 2 (text "x" ∷ []) ≡ (rarjpeg, some (listing (entry ∷ [])))
unfolding main c_string
checks = refl

finds : IsLast rarjpg (some 56)
unfolding eocdr_offset
finds = eocdr_offset-IsLast rarjpg

entries_valid : AllEntries (entry ∷ [])
entries_valid = ((refl, refl, omega arith, omega arith, omega arith), tt)

eocdr_offset-IsLast_example : IsLast rarjpg (eocdr_offset rarjpg)
eocdr_offset-IsLast_example = eocdr_offset-IsLast rarjpg

print_all_filenames-directory_example : print_all_filenames zeros rarjpg 2 4 ≡ listing (entry ∷ [])
print_all_filenames-directory_example =
    print_all_filenames-directory zeros rarjpg (entry ∷ []) end_record 4 entries_valid refl
