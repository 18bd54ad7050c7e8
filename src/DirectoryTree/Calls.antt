-- ===== src/DirectoryTree/Calls.antt =====
-- What `build_tree` and `list_recursively` of 6-oop/main.c take and give back, and the state of
-- their `GError` when they call GIO.
pub mod Errors
pub mod References
use otus_c.Common.{Bool, true, false, List, [], ◌∷◌, ◌++◌, if◌then◌else◌}
use otus_c.DirectoryTree.{Entry, regular, symbolic_link, directory, other, is_dots}
use otus_c.DirectoryTree.{Folder, unreadable, readable, Entries, end, broken, entry}

-- The objects and blocks that are to be given back.
pub data Thing : Type 0 where
  root_dir enumerator file_info child_file path enhanced_path : Thing

-- `asks` is a call of `g_file_enumerate_children` or `g_file_enumerator_next_file`, with whether
-- `*error` is set before it.
pub data Call : Type 0 where
  asks : Bool → Call
  takes gives : Thing → Call

-- `malloc`, `add_row_to_tree` and `free`, if there is memory.
abbrev pub make_row : Bool → List Call
make_row memory = if memory then takes enhanced_path ∷ gives enhanced_path ∷ [] else []

mutual
  -- `list_recursively`, with whether `*error` is set before and after it.
  pub list_calls : Folder → Bool → List Call × Bool
  list_calls unreadable error = (asks error ∷ takes path ∷ gives path ∷ [], true)
  list_calls (readable es) error =
      let (cs, error') = loop_calls es error in (asks error ∷ takes enumerator ∷ cs, error')

  -- Its loop, and what is behind it.
  pub loop_calls : Entries → Bool → List Call × Bool
  loop_calls end error = (asks error ∷ gives enumerator ∷ [], error)
  loop_calls broken error = (asks error ∷ gives enumerator ∷ [], true)
  loop_calls (entry e es) error =
      let (cs, error') = switch_calls e error in
      let (ds, error'') = loop_calls es error' in
      (
        asks error
            ∷ takes file_info
            ∷ takes child_file
            ∷ takes path
            ∷ (cs ++ (gives path ∷ gives file_info ∷ gives child_file ∷ ds)),
        error'',
      )

  -- Its switch.
  pub switch_calls : Entry → Bool → List Call × Bool
  switch_calls (regular file_name memory) error = (make_row memory, error)
  switch_calls (symbolic_link file_name target_path memory) error = (make_row memory, error)
  switch_calls (directory file_name memory child) error =
      let (cs, error') = list_calls child error in
      if is_dots file_name
      then ([], error)
      else if memory
      then (make_row true ++ cs, error')
      else ([], error)
  switch_calls (other file_name) error = ([], error)

-- `build_tree`; `root_dir` stays NULL, so nothing gives back what `g_file_new_for_path` returns.
pub build_tree_calls : Folder → List Call
unfolding list_calls
build_tree_calls root = takes root_dir ∷ (list_calls root false).0
