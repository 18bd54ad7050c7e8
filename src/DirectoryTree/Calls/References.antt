-- ===== src/DirectoryTree/Calls/References.antt =====
-- The references of 6-oop/main.c that are given back.
use otus_c.Common.{ℕ, zero, suc, ◌≡◌, refl, sym, ap, ◌∙◌}
use otus_c.Common.{Bool, true, false, Bool-cases, inl, inr, Option, none, some}
use otus_c.Common.{List, [], ◌∷◌, ◌++◌, append_assoc, append-nil}
use otus_c.DirectoryTree.{Entry, regular, symbolic_link, directory, other, is_dots}
use otus_c.DirectoryTree.{Folder, unreadable, readable, Entries, end, broken, entry}
use otus_c.DirectoryTree.Calls.{Thing, root_dir, enumerator, file_info, child_file, path}
use otus_c.DirectoryTree.Calls.{enhanced_path, Call, asks, takes, gives, list_calls, loop_calls}
use otus_c.DirectoryTree.Calls.{switch_calls, build_tree_calls, make_row}
use otus_c.DirectoryTree.Calls.Errors.{is_legal, is_complete_below, is_legal-build_tree_calls}

-- How many of each thing are held.
pub record Holding : Type 0 where
  pub roots : ℕ
  pub enumerators : ℕ
  pub infos : ℕ
  pub children : ℕ
  pub paths : ℕ
  pub labels : ℕ

-- One less, unless none is held.
abbrev pub less : ℕ → Option ℕ
less zero = none
less (suc n) = some n

after_take : Thing → Holding → Holding
after_take root_dir h = record h { roots = suc h.roots }
after_take enumerator h = record h { enumerators = suc h.enumerators }
after_take file_info h = record h { infos = suc h.infos }
after_take child_file h = record h { children = suc h.children }
after_take path h = record h { paths = suc h.paths }
after_take enhanced_path h = record h { labels = suc h.labels }

with_ : (ℕ → Holding) → Option ℕ → Option Holding
with_ f none = none
with_ f (some n) = some (f n)

after_give : Thing → Holding → Option Holding
unfolding with_
after_give root_dir h = with_ (λ n. record h { roots = n }) (less h.roots)
after_give enumerator h = with_ (λ n. record h { enumerators = n }) (less h.enumerators)
after_give file_info h = with_ (λ n. record h { infos = n }) (less h.infos)
after_give child_file h = with_ (λ n. record h { children = n }) (less h.children)
after_give path h = with_ (λ n. record h { paths = n }) (less h.paths)
after_give enhanced_path h = with_ (λ n. record h { labels = n }) (less h.labels)

-- What is held behind some calls; none where a thing is given back that is not held.
pub held : List Call → Holding → Option Holding
unfolding after_take after_give
held [] h = some h
held (asks error ∷ cs) h = held cs h
held (takes t ∷ cs) h = held cs (after_take t h)
held (gives t ∷ cs) h = elim (after_give t h) [ none ↦ none | some h' ↦ held cs h' ]

held-make_row :
    (memory : Bool) (cs : List Call) (h : Holding) → held (make_row memory ++ cs) h ≡ held cs h
unfolding held after_take after_give with_
held-make_row true cs h = refl
held-make_row false cs h = refl

mutual
  unfolding list_calls loop_calls switch_calls held after_take after_give with_

  held-list_calls :
      (f : Folder) (error : Bool) (cs : List Call) (h : Holding)
      → held ((list_calls f error).0 ++ cs) h ≡ held cs h
  held-list_calls unreadable error cs h = refl
  held-list_calls (readable es) error cs h = held-loop_calls es error cs h

  -- The loop gives back the enumerator.
  held-loop_calls :
      (es : Entries) (error : Bool) (cs : List Call) (h : Holding)
      → held ((loop_calls es error).0 ++ cs) (record h { enumerators = suc h.enumerators })
        ≡ held cs h
  held-loop_calls end error cs h = refl
  held-loop_calls broken error cs h = refl
  held-loop_calls (entry e es) error cs h =
      let (sw, error') = switch_calls e error in
      let rest = gives path ∷ gives file_info ∷ gives child_file ∷ (loop_calls es error').0 in
      let all : Holding = record h {
        enumerators = suc h.enumerators;
        infos = suc h.infos;
        children = suc h.children;
        paths = suc h.paths;
      } in
      ap (λ ds. held ds all) (append_assoc sw rest cs)
      ∙ (held-switch_calls e error (rest ++ cs) all ∙ held-loop_calls es error' cs h)

  held-switch_calls :
      (e : Entry) (error : Bool) (cs : List Call) (h : Holding)
      → held ((switch_calls e error).0 ++ cs) h ≡ held cs h
  held-switch_calls (regular file_name memory) error cs h = held-make_row memory cs h
  held-switch_calls (symbolic_link file_name target_path memory) error cs h =
      held-make_row memory cs h
  held-switch_calls (directory file_name memory child) error cs h =
      elim (Bool-cases (is_dots file_name)) [
        | inl d ↦ rw (d) refl
        | inr d ↦ elim (Bool-cases memory) [
          | inl m ↦ rw (d, m) (held-list_calls child error cs h)
          | inr m ↦ rw (d, m) refl
        ]
      ]
  held-switch_calls (other file_name) error cs h = refl

abbrev pub none_held : Holding
none_held = record { roots = 0; enumerators = 0; infos = 0; children = 0; paths = 0; labels = 0 }

-- `build_tree` gives back every enumerator, file, path and text that it takes, whatever cannot be
-- read or has no memory, but for the reference of the root directory; and it calls GIO over an error
-- that is set exactly if a directory below the root that it lists cannot be read to its end.
pub build_tree_calls-held :
    (root : Folder)
    → (held (build_tree_calls root) none_held ≡ some (record none_held { roots = 1 }))
      × (is_legal (build_tree_calls root) ≡ is_complete_below root)
unfolding build_tree_calls held after_take
build_tree_calls-held root =
    let cs = (list_calls root false).0 in
    (
      ap (λ ds. held ds (record none_held { roots = 1 })) (sym (append-nil cs))
          ∙ held-list_calls root false [] (record none_held { roots = 1 }),
      is_legal-build_tree_calls root,
    )
