-- ===== src/DirectoryTree/Calls/Errors.antt =====
-- When 6-oop/main.c calls GIO over an error that is set.
use otus_c.Common.{◌≡◌, refl, ◌∙◌, arith}
use otus_c.Common.{Bool, true, false, not, ◌&&◌, Bool-cases, inl, inr}
use otus_c.Common.{List, [], ◌∷◌, ◌++◌, if◌then◌else◌}
use otus_c.DirectoryTree.{Entry, regular, symbolic_link, directory, other, is_dots}
use otus_c.DirectoryTree.{Folder, unreadable, readable, Entries, end, broken, entry}
use otus_c.DirectoryTree.Calls.{file_info, child_file, path}
use otus_c.DirectoryTree.Calls.{Call, asks, takes, gives, list_calls, loop_calls}
use otus_c.DirectoryTree.Calls.{switch_calls, build_tree_calls}

-- Whether no call is made over an error that is set.
pub is_legal : List Call → Bool
is_legal [] = true
is_legal (asks error ∷ cs) = not error && is_legal cs
is_legal (takes t ∷ cs) = is_legal cs
is_legal (gives t ∷ cs) = is_legal cs

mutual
  -- Whether all that is listed in a directory and below it can be read.
  pub is_complete : Folder → Bool
  is_complete unreadable = false
  is_complete (readable es) = ends es && all_complete es

  ends : Entries → Bool
  ends end = true
  ends broken = false
  ends (entry e es) = ends es

  -- Whether that holds of the directories among some entries.
  pub all_complete : Entries → Bool
  all_complete end = true
  all_complete broken = true
  all_complete (entry e es) = complete_entry e && all_complete es

  complete_entry : Entry → Bool
  complete_entry (directory file_name memory child) =
      let b = is_complete child in if is_dots file_name then true else if memory then b else true
  complete_entry _ = true

-- Whether the directories in a directory can be read.
unfoldable pub is_complete_below : Folder → Bool
unfolding all_complete
is_complete_below unreadable = true
is_complete_below (readable es) = all_complete es

is_legal-append : (cs ds : List Call) → is_legal (cs ++ ds) ≡ (is_legal cs && is_legal ds)
unfolding is_legal
is_legal-append [] ds = refl
is_legal-append (asks true ∷ cs) ds = refl
is_legal-append (asks false ∷ cs) ds = is_legal-append cs ds
is_legal-append (takes t ∷ cs) ds = is_legal-append cs ds
is_legal-append (gives t ∷ cs) ds = is_legal-append cs ds

loop_calls-set : (es : Entries) → is_legal (loop_calls es true).0 ≡ false
unfolding loop_calls is_legal
loop_calls-set end = refl
loop_calls-set broken = refl
loop_calls-set (entry e es) = refl

mutual
  unfolding list_calls loop_calls switch_calls is_complete ends all_complete complete_entry

  -- An error that is set stays.
  stays_loop : (es : Entries) → (loop_calls es true).1 ≡ true
  stays_loop end = refl
  stays_loop broken = refl
  stays_loop (entry e es) = rw (stays_switch e) (stays_loop es)

  stays_list : (f : Folder) → (list_calls f true).1 ≡ true
  stays_list unreadable = refl
  stays_list (readable es) = stays_loop es

  stays_switch : (e : Entry) → (switch_calls e true).1 ≡ true
  stays_switch (regular file_name memory) = refl
  stays_switch (symbolic_link file_name target_path memory) = refl
  stays_switch (directory file_name memory child) = ground (arith, stays_list child)
  stays_switch (other file_name) = refl

mutual
  unfolding list_calls loop_calls switch_calls is_complete ends all_complete complete_entry

  -- An error is set by what cannot be read.
  sets_list : (f : Folder) → (list_calls f false).1 ≡ not (is_complete f)
  sets_list unreadable = refl
  sets_list (readable es) = sets_loop es

  sets_loop : (es : Entries) → (loop_calls es false).1 ≡ not (ends es && all_complete es)
  sets_loop end = refl
  sets_loop broken = refl
  sets_loop (entry e es) = elim (Bool-cases (complete_entry e)) [
    | inl c ↦ rw (sets_switch e, c) (sets_loop es)
    | inr c ↦ rw (sets_switch e, c) (ground (arith, stays_loop es))
  ]

  sets_switch : (e : Entry) → (switch_calls e false).1 ≡ not (complete_entry e)
  sets_switch (regular file_name memory) = refl
  sets_switch (symbolic_link file_name target_path memory) = refl
  sets_switch (directory file_name memory child) = ground (arith, sets_list child)
  sets_switch (other file_name) = refl

complete_below : (f : Folder) → is_complete f ≡ true → is_complete_below f ≡ true
unfolding is_complete is_complete_below
complete_below unreadable c = refl
complete_below (readable es) c = ground (arith, c)

mutual
  unfolding list_calls loop_calls switch_calls is_legal all_complete complete_entry
      is_complete_below

  is_legal-list_calls : (f : Folder) → is_legal (list_calls f false).0 ≡ is_complete_below f
  is_legal-list_calls unreadable = refl
  is_legal-list_calls (readable es) = is_legal-loop_calls es

  is_legal-loop_calls : (es : Entries) → is_legal (loop_calls es false).0 ≡ all_complete es
  is_legal-loop_calls end = refl
  is_legal-loop_calls broken = refl
  is_legal-loop_calls (entry e es) =
      let (sw, error') = switch_calls e false in
      let rest = gives path ∷ gives file_info ∷ gives child_file ∷ (loop_calls es error').0 in
      is_legal-append sw rest ∙ (elim (Bool-cases (complete_entry e)) [
        | inl c ↦ rw (sets_switch e, c, is_legal-switch_calls e c) (is_legal-loop_calls es)
        | inr c ↦ rw (sets_switch e, c, loop_calls-set es) (ground arith)
      ])

  is_legal-switch_calls :
      (e : Entry) → complete_entry e ≡ true → is_legal (switch_calls e false).0 ≡ true
  is_legal-switch_calls (regular file_name memory) c = ground arith
  is_legal-switch_calls (symbolic_link file_name target_path memory) c = ground arith
  is_legal-switch_calls (directory file_name memory child) c =
      elim (Bool-cases (is_dots file_name)) [
        | inl d ↦ rw (d) refl
        | inr d ↦ elim (Bool-cases memory) [
          | inl m ↦
              rw (d, m) (is_legal-list_calls child ∙ complete_below child (ground (arith, c, d, m)))
          | inr m ↦ rw (d, m) refl
        ]
      ]
  is_legal-switch_calls (other file_name) c = refl

pub is_legal-build_tree_calls :
    (root : Folder) → is_legal (build_tree_calls root) ≡ is_complete_below root
unfolding build_tree_calls is_legal
is_legal-build_tree_calls root = is_legal-list_calls root
