-- ===== src/DirectoryTree.antt =====
-- 6-oop/main.c: the tree of the working directory, shown in a window.
--
-- What the system gives for a directory is a tree of entries, in the order of the enumeration. The
-- tree store is the list of the rows that are appended: a row is known by its number, and has that
-- of its parent. `child_path` is the path of a child that GIO gives.
pub mod Rows
pub mod Calls
mod Tests
use otus_c.Common.{
  ℕ, zero, suc, ◌+◌, Bool, true, false, not, ◌||◌, Option, none, some, List, [], ◌∷◌,
}
use otus_c.Common.{◌++◌, ◌==◌, if◌then◌else◌, length, Text, text, str_eq}

mutual
  -- An entry of a directory, with whether there is memory for its text.
  pub data Entry : Type 0 where
    regular : Text → Bool → Entry
    symbolic_link : Text → Text → Bool → Entry
    directory : Text → Bool → Folder → Entry
    other : Text → Entry

  -- What the enumeration of a directory gives; it fails, or may fail behind some entries.
  pub data Folder : Type 0 where
    unreadable : Folder
    readable : Entries → Folder

  pub data Entries : Type 0 where
    end : Entries
    broken : Entries
    entry : Entry → Entries → Entries

pub record Row : Type 0 where
  pub parent : Option ℕ
  pub label : Text

-- The rows, and whether `error` is set.
pub record Store : Type 0 where
  pub rows : List Row
  pub error : Bool

-- `add_row_to_tree`; the iterator then stands for the new row.
pub add_row_to_tree : Option ℕ → Text → Store → Store × ℕ
add_row_to_tree parent file_name s = (
  record s { rows = s.rows ++ (record { parent = parent; label = file_name } ∷ []) },
  length s.rows,
)

-- The bytes of the mark at the beginning of a row.
abbrev pub mark : Text
mark = 226 ∷ 148 ∷ 148 ∷ []

abbrev pub file_label : Text → Text
file_label path = mark ++ path

abbrev pub link_label : Text → Text → Text
link_label path target_path = mark ++ (path ++ (text " -> " ++ target_path))

-- The sizes that are asked of `malloc` for them.
abbrev pub file_size : Text → ℕ
file_size path = length path + 4

abbrev pub link_size : Text → Text → ℕ
link_size path target_path = length path + 8 + length target_path

abbrev pub is_dots : Text → Bool
is_dots file_name = str_eq file_name (text ".") || str_eq file_name (text "..")

module _ (child_path : Text → Text → Text) where
  mutual
    unfolding add_row_to_tree

    -- `list_recursively`
    pub list_recursively : Text → Option ℕ → Folder → Store → Store
    list_recursively dir parent unreadable s = record s { error = true }
    list_recursively dir parent (readable es) s = list_entries dir parent es s

    -- Its loop.
    pub list_entries : Text → Option ℕ → Entries → Store → Store
    list_entries dir parent end s = s
    list_entries dir parent broken s = record s { error = true }
    list_entries dir parent (entry e es) s = list_entries dir parent es (list_entry dir parent e s)

    -- Its switch.
    pub list_entry : Text → Option ℕ → Entry → Store → Store
    list_entry dir parent (regular file_name memory) s =
        if memory then (add_row_to_tree parent (file_label (child_path dir file_name)) s).0 else s
    list_entry dir parent (symbolic_link file_name target_path memory) s =
        if memory
        then (add_row_to_tree parent (link_label (child_path dir file_name) target_path) s).0
        else s
    list_entry dir parent (directory file_name memory child) s =
        let path = child_path dir file_name in
        let (s', iter) = add_row_to_tree parent (file_label path) s in
        let inside = list_recursively path (some iter) child s' in
        if is_dots file_name then s else if memory then inside else s
    list_entry dir parent (other file_name) s = s

  -- `build_tree`: the rows, and its result 0 or 1.
  pub build_tree : Text → Folder → List Row → List Row × ℕ
  unfolding list_recursively
  build_tree cwd root rows =
      let s = list_recursively cwd none root (record { rows = rows; error = false }) in
      (s.rows, if s.error then 1 else 0)

  -- `app_activate_cb`: the rows that are shown, `exit_status` (0 or 1), and whether the application
  -- was told to quit.
  unfoldable pub app_activate_cb : Text → Folder → List Row × (ℕ × Bool)
  unfolding build_tree add_row_to_tree
  app_activate_cb cwd root =
      let (s, iter) = add_row_to_tree none (text ".") (record { rows = []; error = false }) in
      let (rows, result) = build_tree cwd root s.rows in
      (rows, (result, if result == 0 then false else true))
