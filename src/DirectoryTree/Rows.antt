-- ===== src/DirectoryTree/Rows.antt =====
-- The rows of 6-oop/main.c are those of the directory tree.
use otus_c.Common.{ℕ, suc, ◌+◌, ◌≡◌, refl, sym, ap, ◌∙◌, arith, Bool, true, false, ◌||◌, Bool-cases}
use otus_c.Common.{
  Option, none, some, List, [], ◌∷◌, ◌++◌, append_assoc, append-nil, length, length-append,
}
use otus_c.Common.{if◌then◌else◌, inl, inr, Text, text}
use otus_c.DirectoryTree.{
  Entry, regular, symbolic_link, directory, other, Folder, unreadable, readable,
}
use otus_c.DirectoryTree.{Entries, end, broken, entry, Row, Store, file_label, link_label}
use otus_c.DirectoryTree.{
  file_size, link_size, is_dots, list_recursively, list_entries, list_entry, build_tree,
  app_activate_cb,
}

-- Labelled trees: the first tree of a forest, with what is below it, and the other trees.
pub data Forest : Type 0 where
  nothing : Forest
  tree : Text → Forest → Forest → Forest

abbrev pub size : Forest → ℕ
size nothing = 0
size (tree label below rest) = suc (size below + size rest)

-- The rows of a forest in depth-first order, the first of which has the number `n`.
abbrev pub rows_of : Option ℕ → ℕ → Forest → List Row
rows_of parent n nothing = []
rows_of parent n (tree label below rest) =
    record { parent = parent; label = label }
    ∷ (rows_of (some n) (suc n) below ++ rows_of parent (suc n + size below) rest)

length-rows_of : (parent : Option ℕ) (n : ℕ) (f : Forest) → length (rows_of parent n f) ≡ size f
length-rows_of parent n nothing = refl
length-rows_of parent n (tree label below rest) =
    let a = length-rows_of (some n) (suc n) below in
    let b = length-rows_of parent (suc n + size below) rest in
    omega (
      arith,
      a,
      b,
      length-append (rows_of (some n) (suc n) below) (rows_of parent (suc n + size below) rest),
    )

-- Whether a directory that is entered cannot be read to its end.
unfoldable mutual
  pub fails_folder : Folder → Bool
  fails_folder unreadable = true
  fails_folder (readable es) = fails es

  pub fails : Entries → Bool
  fails end = false
  fails broken = true
  fails (entry e es) = fails_entry e || fails es

  pub fails_entry : Entry → Bool
  fails_entry (regular name memory) = false
  fails_entry (symbolic_link name target memory) = false
  fails_entry (directory name memory child) =
      let inside = fails_folder child in
      if is_dots name then false else if memory then inside else false
  fails_entry (other name) = false

module _ (child_path : Text → Text → Text) where
  unfoldable mutual
    -- What is to be shown: files and links, and directories with what they have; not what there is
    -- no memory for.
    pub shown_folder : Text → Folder → Forest
    shown_folder dir unreadable = nothing
    shown_folder dir (readable es) = shown dir es

    pub shown : Text → Entries → Forest
    shown dir end = nothing
    shown dir broken = nothing
    shown dir (entry e es) = shown_entry dir e (shown dir es)

    -- An entry in front of those behind it.
    pub shown_entry : Text → Entry → Forest → Forest
    shown_entry dir (regular name memory) rest =
        if memory then tree (file_label (child_path dir name)) nothing rest else rest
    shown_entry dir (symbolic_link name target memory) rest =
        if memory then tree (link_label (child_path dir name) target) nothing rest else rest
    shown_entry dir (directory name memory child) rest =
        let path = child_path dir name in
        let below = shown_folder path child in
        if is_dots name then rest else if memory then tree (file_label path) below rest else rest
    shown_entry dir (other name) rest = rest

  abbrev row_at : Option ℕ → Text → Store → List Row
  row_at parent label s = s.rows ++ (record { parent = parent; label = label } ∷ [])

  -- A row without others below it, before the rows of `rest`.
  leaf :
      (parent : Option ℕ) (label : Text) (rest : Forest) (s : Store)
      → row_at parent label s ++ rows_of parent (length (row_at parent label s)) rest
        ≡ s.rows ++ rows_of parent (length s.rows) (tree label nothing rest)
  leaf parent label rest s =
      let r : List Row = record { parent = parent; label = label } ∷ [] in
      let n : length (s.rows ++ r) ≡ suc (length s.rows) + 0 =
        omega (arith, length-append s.rows r) in
      rw (n) (append_assoc s.rows r (rows_of parent (suc (length s.rows) + 0) rest))

  -- A row, the rows below it, and those of `rest`.
  branch :
      (parent : Option ℕ) (label : Text) (below rest : Forest) (s : Store) (rows : List Row)
      → rows
        ≡ row_at parent label s
          ++ rows_of (some (length s.rows)) (length (row_at parent label s)) below
      → rows ++ rows_of parent (length rows) rest
        ≡ s.rows ++ rows_of parent (length s.rows) (tree label below rest)
  branch parent label below rest s rows e =
      let r : List Row = record { parent = parent; label = label } ∷ [] in
      let n : length (s.rows ++ r) ≡ suc (length s.rows) = omega (arith, length-append s.rows r) in
      let inner = rows_of (some (length s.rows)) (suc (length s.rows)) below in
      let e' : rows ≡ (s.rows ++ r) ++ inner =
        e ∙ ap (λ k. (s.rows ++ r) ++ rows_of (some (length s.rows)) k below) n in
      let l : length rows ≡ suc (length s.rows) + size below = omega (
        arith,
        ap length e',
        n,
        length-append (s.rows ++ r) inner,
        length-rows_of (some (length s.rows)) (suc (length s.rows)) below,
      ) in
      rw (l, e')
        (append_assoc (s.rows ++ r) inner (rows_of parent (suc (length s.rows) + size below) rest)
          ∙ append_assoc s.rows r (inner ++ rows_of parent (suc (length s.rows) + size below) rest))

  mutual
    unfolding list_recursively shown_folder

    folder-rows :
        (f : Folder) (dir : Text) (parent : Option ℕ) (s : Store)
        → (list_recursively child_path dir parent f s).rows
          ≡ s.rows ++ rows_of parent (length s.rows) (shown_folder dir f)
    folder-rows unreadable dir parent s = sym (append-nil s.rows)
    folder-rows (readable es) dir parent s = entries-rows es dir parent s

    entries-rows :
        (es : Entries) (dir : Text) (parent : Option ℕ) (s : Store)
        → (list_entries child_path dir parent es s).rows
          ≡ s.rows ++ rows_of parent (length s.rows) (shown dir es)
    entries-rows end dir parent s = sym (append-nil s.rows)
    entries-rows broken dir parent s = sym (append-nil s.rows)
    entries-rows (entry e es) dir parent s =
        entries-rows es dir parent (list_entry child_path dir parent e s)
        ∙ entry-rows e dir parent s (shown dir es)

    entry-rows :
        (e : Entry) (dir : Text) (parent : Option ℕ) (s : Store) (rest : Forest)
        → (list_entry child_path dir parent e s).rows
            ++ rows_of parent (length (list_entry child_path dir parent e s).rows) rest
          ≡ s.rows ++ rows_of parent (length s.rows) (shown_entry dir e rest)
    entry-rows (regular name false) dir parent s rest = refl
    entry-rows (regular name true) dir parent s rest =
        leaf parent (file_label (child_path dir name)) rest s
    entry-rows (symbolic_link name target false) dir parent s rest = refl
    entry-rows (symbolic_link name target true) dir parent s rest =
        leaf parent (link_label (child_path dir name) target) rest s
    entry-rows (other name) dir parent s rest = refl
    entry-rows (directory name false child) dir parent s rest = elim (Bool-cases (is_dots name)) [
      | inl p ↦ rw (p) refl
      | inr p ↦ rw (p) refl
    ]
    entry-rows (directory name true child) dir parent s rest =
        let path = child_path dir name in
        let label = file_label path in
        let s' : Store = record s { rows = row_at parent label s } in
        let inside = folder-rows child path (some (length s.rows)) s' in
        let joined = branch parent label (shown_folder path child) rest s _ inside in
        elim (Bool-cases (is_dots name)) [ inl p ↦ rw (p) refl | inr p ↦ rw (p) joined ]

  mutual
    unfolding list_recursively fails_folder

    folder-error :
        (f : Folder) (dir : Text) (parent : Option ℕ) (s : Store)
        → (list_recursively child_path dir parent f s).error ≡ (s.error || fails_folder f)
    folder-error unreadable dir parent s = ground arith
    folder-error (readable es) dir parent s = entries-error es dir parent s

    entries-error :
        (es : Entries) (dir : Text) (parent : Option ℕ) (s : Store)
        → (list_entries child_path dir parent es s).error ≡ (s.error || fails es)
    entries-error end dir parent s = ground arith
    entries-error broken dir parent s = ground arith
    entries-error (entry e es) dir parent s = ground (
      arith,
      entries-error es dir parent (list_entry child_path dir parent e s),
      entry-error e dir parent s,
    )

    entry-error :
        (e : Entry) (dir : Text) (parent : Option ℕ) (s : Store)
        → (list_entry child_path dir parent e s).error ≡ (s.error || fails_entry e)
    entry-error (regular name memory) dir parent s = ground arith
    entry-error (symbolic_link name target memory) dir parent s = ground arith
    entry-error (other name) dir parent s = ground arith
    entry-error (directory name memory child) dir parent s =
        let path = child_path dir name in
        let s' : Store = record s { rows = row_at parent (file_label path) s } in
        let inside = folder-error child path (some (length s.rows)) s' in ground (arith, inside)

  -- The window shows the row "." and behind it, in depth-first order and each below its directory,
  -- the rows of the files, links and directories that can be read and that there is memory for; the
  -- exit status is set, and the application quits, exactly if a directory cannot be read to its end.
  pub app_activate_cb-rows :
      (cwd : Text) (root : Folder)
      → app_activate_cb child_path cwd root ≡ (
        rows_of none 0 (tree (text ".") nothing (shown_folder cwd root)),
        (if fails_folder root then 1 else 0, fails_folder root),
      )
  unfolding app_activate_cb build_tree
  app_activate_cb-rows cwd root =
      let s : Store = record {
        rows = record { parent = none; label = text "." } ∷ [];
        error = false;
      } in
      let rows = folder-rows root cwd none s in
      let error = folder-error root cwd none s in
      elim (Bool-cases (fails_folder root)) [
        | inl p ↦ let q = error ∙ p in rw (app_activate_cb, build_tree, rows, q, p) refl
        | inr p ↦ let q = error ∙ p in rw (app_activate_cb, build_tree, rows, q, p) refl
      ]

-- The texts, with their zero, fill exactly the memory that is asked for.
label-sizes :
    (path target : Text)
    → (length (file_label path) + 1 ≡ file_size path)
      × (length (link_label path target) + 1 ≡ link_size path target)
label-sizes path target = (omega arith, omega (arith, length-append path (text " -> " ++ target)))
