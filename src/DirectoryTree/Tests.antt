-- ===== src/DirectoryTree/Tests.antt =====
-- A small directory for 6-oop/main.c.
use otus_c.Common.{◌≡◌, refl, true, false, none, some, [], ◌∷◌, ◌++◌}
use otus_c.Common.{Text, text, if◌then◌else◌}
use otus_c.DirectoryTree.{
  Folder, readable, unreadable, end, entry, regular, symbolic_link, directory, other,
}
use otus_c.DirectoryTree.{app_activate_cb, mark}
use otus_c.DirectoryTree.Rows.{
  tree, nothing, rows_of, shown_folder, fails_folder, app_activate_cb-rows,
}
use otus_c.DirectoryTree.Calls.{build_tree_calls}
use otus_c.DirectoryTree.Calls.Errors.{is_legal, is_complete_below}
use otus_c.DirectoryTree.Calls.References.{held, none_held, build_tree_calls-held}

abbrev slash : Text → Text → Text
slash dir name = dir ++ (b'/' ∷ name)

abbrev inner : Folder
inner = readable (entry (regular (text "x") true) (entry (other (text "fifo")) end))

abbrev root : Folder
root = readable (
    entry (directory (text "a") true inner) (
      entry (directory (text "b") true unreadable)
        (entry (symbolic_link (text "l") (text "a/x") true) end)))

shows : app_activate_cb slash (text "/w") root ≡ (
  record { parent = none; label = text "." }
      ∷ record { parent = none; label = mark ++ text "/w/a" }
      ∷ record { parent = some 1; label = mark ++ text "/w/a/x" }
      ∷ record { parent = none; label = mark ++ text "/w/b" }
      ∷ record { parent = none; label = mark ++ text "/w/l -> a/x" }
      ∷ [],
  (1, true),
)
unfolding app_activate_cb
shows = refl

app_activate_cb-rows_example : app_activate_cb slash (text "/w") root ≡ (
  rows_of none 0 (tree (text ".") nothing (shown_folder slash (text "/w") root)),
  (if fails_folder root then 1 else 0, fails_folder root),
)
app_activate_cb-rows_example = app_activate_cb-rows slash (text "/w") root

build_tree_calls-held_example :
    (held (build_tree_calls root) none_held ≡ some (record none_held { roots = 1 }))
    × (is_legal (build_tree_calls root) ≡ is_complete_below root)
build_tree_calls-held_example = build_tree_calls-held root

-- Behind the directory that cannot be read, the loop goes on over its error.
goes_on_over : is_complete_below root ≡ false
unfolding is_complete_below
goes_on_over = refl
