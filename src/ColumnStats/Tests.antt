-- ===== src/ColumnStats/Tests.antt =====
-- Runs of 15-db/main.c.
use otus_c.Common.{◌≡◌, refl, true, false, none, some, List, [], ◌∷◌, Text, text}
use otus_c.ColumnStats.{Postgres, Sqlite, integer, textual, main}
use otus_c.ColumnStats.Resources.{replay, nothing, prints, main-released}

abbrev postgres : Postgres
postgres = record {
  connected = true;
  column = some 23;
  row = some (text "1") ∷ some (text "2") ∷ [];
}

abbrev sqlite : Sqlite
sqlite = record {
  opens = true;
  prepares = true;
  first_row = some integer;
  prepares_query = true;
  row = some (some (text "1.5") ∷ none ∷ []);
}

abbrev argv : List Text
argv = text "stats" ∷ text "sqlite" ∷ text "a.db" ∷ text "t" ∷ text "c" ∷ []

main-released_example : replay (main postgres sqlite argv).calls nothing ≡ some nothing
main-released_example = main-released postgres sqlite argv refl

does_print : prints (main postgres sqlite argv).calls ≡ true
unfolding main
does_print = refl

-- A database that does not open is not closed.
not_closed :
    replay (main postgres (record sqlite { opens = false }) argv).calls nothing
    ≡ some (record nothing { database = true })
unfolding main
not_closed = refl

text_refused :
    prints (main postgres (record sqlite { first_row = some textual }) argv).calls ≡ false
unfolding main
text_refused = refl
