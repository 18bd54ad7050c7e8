-- ===== src/ColumnStats/Resources.antt =====
-- 15-db/main.c gives back what it takes of the libraries, and prints only what it has checked.
use otus_c.Common.{ℕ, ◌≡◌, ◌⊎◌, refl, arith, Bool, true, false, not, ◌||◌, ◌&&◌, Option, none, some}
use otus_c.Common.{List, [], ◌∷◌, if◌then◌else◌, Text, text, str_eq, Bool-cases, Option-cases}
use otus_c.Common.{inl, inr}
use otus_c.ColumnStats.{
  Call, pq_connectdb, pq_finish, pq_exec, pq_clear, sqlite3_open, sqlite3_close,
}
use otus_c.ColumnStats.{
  sqlite3_prepare, sqlite3_finalize, print, Run, Postgres, Sqlite, main, run_postgres,
}
use otus_c.ColumnStats.{
  run_sqlite, aggregate, is_numeric_oid, passes, quits, arg, sqlite_check, unconnected, refused,
  answered,
}

-- What is taken and not given back: a connection, a result, a database, a statement.
pub record Taken : Type 0 where
  pub connection : Bool
  pub result : Bool
  pub database : Bool
  pub statement : Bool

abbrev pub nothing : Taken
nothing = record { connection = false; result = false; database = false; statement = false }

abbrev allowed : Bool → Taken → Option Taken
allowed b h = if b then some h else none

-- What a call may be made with, and what it takes and gives back. A statement that could not be
-- prepared is NULL, and finalizing it does nothing.
abbrev pub use_call : Call → Taken → Option Taken
use_call (pq_connectdb info) h = allowed (not h.connection) (record h { connection = true })
use_call pq_finish h = allowed (h.connection && not h.result) (record h { connection = false })
use_call (pq_exec query) h = allowed (h.connection && not h.result) (record h { result = true })
use_call pq_clear h = allowed h.result (record h { result = false })
use_call (sqlite3_open path) h = allowed (not h.database) (record h { database = true })
use_call sqlite3_close h = allowed (h.database && not h.statement) (record h { database = false })
use_call (sqlite3_prepare query ok) h =
    allowed (h.database && not h.statement) (record h { statement = ok })
use_call sqlite3_finalize h = allowed h.database (record h { statement = false })
use_call (print row) h = allowed (h.result || h.statement) h

abbrev pub replay : List Call → Taken → Option Taken
replay [] h = some h
replay (c ∷ cs) h = elim (use_call c h) [ none ↦ none | some h' ↦ replay cs h' ]

-- A property of all runs is one of each.
run_postgres_cases :
    (P : Run → Type 0) (k : Postgres) (argv : List Text)
    → P (quits [])
    → P (unconnected argv)
    → P (refused argv)
    → ((t : ℕ)
        → k.connected ≡ true
        → k.column ≡ some t
        → is_numeric_oid t ≡ true
        → P (answered k argv))
    → P (run_postgres k argv)
unfolding run_postgres
run_postgres_cases P k argv a b c d = elim (Option-cases k.column) [
  | inl e ↦ rw (run_postgres, e) (ground arith)
  | inr (t, e) ↦ elim (Bool-cases (is_numeric_oid t)) [
    | inl p ↦ rw (run_postgres, e, p) (ground (arith, d t))
    | inr p ↦ rw (run_postgres, e, p) (ground arith)
  ]
]

run_sqlite_cases :
    (P : Run → Type 0) (k : Sqlite) (argv : List Text)
    → P (quits [])
    → (k.opens ≡ false → P (quits (sqlite3_open (arg argv 2) ∷ [])))
    → P (quits (sqlite_check argv false (sqlite3_close ∷ [])))
    → P (quits (sqlite_check argv true (sqlite3_finalize ∷ sqlite3_close ∷ [])))
    → (k.prepares ≡ true
        → passes k.first_row ≡ true
        → P (record {
          success = true;
          calls = sqlite_check argv true (sqlite3_finalize ∷ aggregate k argv);
        }))
    → P (run_sqlite k argv)
unfolding run_sqlite
run_sqlite_cases P k argv a b c d e = ground arith

main_cases :
    (P : Run → Type 0) (p : Postgres) (s : Sqlite) (argv : List Text)
    → P (quits [])
    → (str_eq (arg argv 1) (text "postgres") ≡ true → P (run_postgres p argv))
    → (str_eq (arg argv 1) (text "sqlite") ≡ true → P (run_sqlite s argv))
    → P (main p s argv)
unfolding main
main_cases P p s argv a b c = ground arith

aggregate-replay :
    (k : Sqlite) (argv : List Text)
    → replay (aggregate k argv) (record nothing { database = true }) ≡ some nothing
unfolding aggregate
aggregate-replay k argv = elim (Bool-cases k.prepares_query) [
  | inr p ↦ rw (aggregate, p) refl
  | inl p ↦ elim (Option-cases k.row) [
    | inl e ↦ rw (aggregate, p, e) refl
    | inr (row, e) ↦ rw (aggregate, p, e) refl
  ]
]

abbrev IsReleased : Run → Type 0
IsReleased r = replay r.calls nothing ≡ some nothing

-- Where the file of the database opens, if it comes to that, the program makes no call that it may
-- not make, and whatever it was given by the libraries it has given back at its end, on every path.
pub main-released :
    (p : Postgres) (s : Sqlite) (argv : List Text)
    → s.opens ≡ true
    → replay (main p s argv).calls nothing ≡ some nothing
main-released p s argv o =
    main_cases IsReleased p s argv refl
      (λ c. run_postgres_cases IsReleased p argv refl refl refl (λ t a b d. refl))
      (λ c.
        run_sqlite_cases IsReleased s argv refl (λ q. absurd (ground (arith, o, q))) refl refl
          (λ a b. aggregate-replay s argv))

abbrev pub prints : List Call → Bool
prints [] = false
prints (print row ∷ cs) = true
prints (_ ∷ cs) = prints cs

-- The column was found to have numbers, by the database that was asked for.
abbrev pub IsNumeric : Postgres → Sqlite → List Text → Type 0
IsNumeric p s argv =
    ((str_eq (arg argv 1) (text "postgres") ≡ true)
      × (p.connected ≡ true)
      × ((t : ℕ) × (p.column ≡ some t) × (is_numeric_oid t ≡ true)))
    ⊎ ((str_eq (arg argv 1) (text "sqlite") ≡ true)
        × (s.prepares ≡ true)
        × (passes s.first_row ≡ true))

-- Statistics are printed only of a column whose type was found to be numeric, or of a column in
-- sqlite that has no first row or a NULL there.
pub main-IsNumeric :
    (p : Postgres) (s : Sqlite) (argv : List Text)
    → prints (main p s argv).calls ≡ true
    → IsNumeric p s argv
main-IsNumeric p s argv =
    let P : Run → Type 0 = λ r. prints r.calls ≡ true → IsNumeric p s argv in
    let no : false ≡ true → IsNumeric p s argv = λ e. absurd (ground (arith, e)) in
    main_cases P p s argv no
      (λ c. run_postgres_cases P p argv no no no (λ t a b d e. inl (c, a, (t, b, d))))
      (λ c. run_sqlite_cases P s argv no (λ q. no) no no (λ a b e. inr (c, a, b)))
