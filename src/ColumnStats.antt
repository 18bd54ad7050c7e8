-- ===== src/ColumnStats.antt =====
-- 15-db/main.c: statistics of a column of a database, by libpq or sqlite3.
--
-- What the databases answer is an argument, and a run is the list of the calls that are made of them
-- and of the line that is printed. `snprintf` cuts a text to its array.
pub mod Resources
mod Tests
use otus_c.Common.{
  ℕ, zero, suc, ◌+◌, Bool, true, false, not, ◌||◌, Option, none, some, List, [], ◌∷◌,
}
use otus_c.Common.{◌++◌, ltb, ◌==◌, if◌then◌else◌, length, take, get_or, Text, text, str_eq}

-- `none` is a NULL that is given to printf.
pub data Call : Type 0 where
  pq_connectdb : Text → Call
  pq_finish : Call
  pq_exec : Text → Call
  pq_clear : Call
  sqlite3_open : Text → Call
  sqlite3_close : Call
  sqlite3_prepare : Text → Bool → Call
  sqlite3_finalize : Call
  print : List (Option Text) → Call

-- How the program ends, 0 or 1, and its calls.
pub record Run : Type 0 where
  pub success : Bool
  pub calls : List Call

-- The answers of a Postgres server: whether there is a connection; the type of the column, if the
-- first query was answered; what `PQgetvalue` gives behind the second.
pub record Postgres : Type 0 where
  pub connected : Bool
  pub column : Option ℕ
  pub row : List (Option Text)

pub data ColumnType : Type 0 where
  integer float textual blob null : ColumnType

-- The answers of sqlite3: whether the file opens; whether the first query can be prepared, and the
-- type of the column in its first row, if there is one; the second query and its row.
pub record Sqlite : Type 0 where
  pub opens : Bool
  pub prepares : Bool
  pub first_row : Option ColumnType
  pub prepares_query : Bool
  pub row : Option (List (Option Text))

abbrev pub arg : List Text → ℕ → Text
arg argv i = get_or argv i []

abbrev pub conninfo : List Text → Text
conninfo argv = take 1023 (
    text "host="
    ++ (arg argv 2
        ++ (text " port="
            ++ (arg argv 3
                ++ (text " dbname="
                    ++ (arg argv 4
                        ++ (text " user="
                            ++ (arg argv 6
                                ++ (text " password="
                                    ++ (arg argv 7 ++ text " connect_timeout=5"))))))))))

abbrev pub check_query : Text → Text → Text → Text
check_query column table limit =
    take 511 (text "SELECT " ++ (column ++ (text " FROM " ++ (table ++ (text " LIMIT " ++ limit)))))

abbrev pub postgres_query : Text → Text → Text
postgres_query column table = take 1023 (
    text "SELECT AVG("
    ++ (column
        ++ (text "), MAX("
            ++ (column
                ++ (text "), MIN("
                    ++ (column
                        ++ (text "), SUM("
                            ++ (column
                                ++ (text "), var_pop("
                                    ++ (column ++ (text ") FROM " ++ table)))))))))))

abbrev pub sqlite_query : Text → Text → Text
sqlite_query column table = take 1023 (
    text "SELECT AVG("
    ++ (column
        ++ (text "), MAX("
            ++ (column
                ++ (text "), MIN("
                    ++ (column
                        ++ (text "), SUM("
                            ++ (column
                                ++ (text "), (AVG("
                                    ++ (column
                                        ++ (text "*"
                                            ++ (column
                                                ++ (text ") - (AVG("
                                                    ++ (column
                                                        ++ (text ")*AVG("
                                                            ++ (column
                                                            ++ (text "))) FROM "
                                                            ++ table)))))))))))))))))

abbrev pub is_numeric_oid : ℕ → Bool
is_numeric_oid t = t == 20 || (t == 21 || (t == 23 || (t == 700 || (t == 701 || t == 1700))))

abbrev pub is_numeric : ColumnType → Bool
is_numeric integer = true
is_numeric float = true
is_numeric null = true
is_numeric textual = false
is_numeric blob = false

abbrev pub quits : List Call → Run
quits calls = record { success = false; calls = calls }

-- The runs of `run_postgres`: no connection; a column that is refused; one that is answered.
abbrev pub unconnected : List Text → Run
unconnected argv = quits (pq_connectdb (conninfo argv) ∷ pq_finish ∷ [])

abbrev pub column_check : List Text → Call
column_check argv = pq_exec (check_query (arg argv 8) (arg argv 5) (text "0"))

abbrev pub refused : List Text → Run
refused argv = quits (pq_connectdb (conninfo argv) ∷ column_check argv ∷ pq_clear ∷ pq_finish ∷ [])

abbrev pub answered : Postgres → List Text → Run
answered k argv = record {
  success = true;
  calls =
      pq_connectdb (conninfo argv)
      ∷ column_check argv
      ∷ pq_clear
      ∷ pq_exec (postgres_query (arg argv 8) (arg argv 5))
      ∷ print k.row
      ∷ pq_clear
      ∷ pq_finish
      ∷ [];
}

pub run_postgres : Postgres → List Text → Run
run_postgres k argv =
    if not (length argv == 9)
    then quits []
    else if not k.connected
    then unconnected argv
    else elim k.column [
      | none ↦ refused argv
      | some t ↦ if is_numeric_oid t then answered k argv else refused argv
    ]

-- `run_sqlite` behind the first query: its calls.
pub aggregate : Sqlite → List Text → List Call
aggregate k argv =
    let query = sqlite_query (arg argv 4) (arg argv 3) in
    if not k.prepares_query
    then sqlite3_prepare query false ∷ sqlite3_finalize ∷ sqlite3_close ∷ []
    else elim k.row [
      | none ↦ sqlite3_prepare query true ∷ sqlite3_finalize ∷ sqlite3_close ∷ []
      | some row ↦ sqlite3_prepare query true ∷ print row ∷ sqlite3_finalize ∷ sqlite3_close ∷ []
    ]

-- Whether the first row lets the column pass.
abbrev pub passes : Option ColumnType → Bool
passes none = true
passes (some t) = is_numeric t

-- The calls of `run_sqlite`, up to the first query or to the end.
abbrev pub sqlite_check : List Text → Bool → List Call → List Call
sqlite_check argv ok calls =
    sqlite3_open (arg argv 2)
    ∷ sqlite3_prepare (check_query (arg argv 4) (arg argv 3) (text "1")) ok
    ∷ calls

pub run_sqlite : Sqlite → List Text → Run
unfolding aggregate
run_sqlite k argv =
    if not (length argv == 5)
    then quits []
    else if not k.opens
    then quits (sqlite3_open (arg argv 2) ∷ [])
    else if not k.prepares
    then quits (sqlite_check argv false (sqlite3_close ∷ []))
    else if not (passes k.first_row)
    then quits (sqlite_check argv true (sqlite3_finalize ∷ sqlite3_close ∷ []))
    else record {
      success = true;
      calls = sqlite_check argv true (sqlite3_finalize ∷ aggregate k argv);
    }

unfoldable pub main : Postgres → Sqlite → List Text → Run
unfolding run_postgres run_sqlite
main p s argv =
    let command = arg argv 1 in
    if ltb (length argv) 2
    then quits []
    else if str_eq command (text "postgres")
    then run_postgres p argv
    else if str_eq command (text "sqlite")
    then run_sqlite s argv
    else quits []
