-- ===== src/Rls/Reading.antt =====
-- ReadTables of rlstest/catalog.go, on what the query brings.
use mascotapp.Base.{
  ◌≡◌, inl, inr, Bool, false, List, [], ◌∷◌, map, Option, none, some, Bool-cases, if◌then◌else◌,
  arith,
}
use mascotapp.Base.Results.{Result, pass, fail, ◌>>=◌, or_fail, bind-pass}
use mascotapp.Rls.{TableProtection}

-- What a query of the catalogue brings: the rows, of which one that cannot be scanned is `none`, and
-- whether reading them ended in an error.
pub record Rows : Type 0 where
  pub scanned : List (Option TableProtection)
  pub interrupted : Bool

pub data ReadError : Type 0 where
  reading scanning : ReadError

-- The loop of ReadTables.
unfoldable pub collect_rows :
    List (Option TableProtection) → Result ReadError (List TableProtection)
collect_rows [] = pass []
collect_rows (row ∷ rows) = do t ← or_fail row scanning; ts ← collect_rows rows; pass (t ∷ ts)

-- ReadTables, where `none` is an error of Query.
unfoldable pub read_tables : Option Rows → Result ReadError (List TableProtection)
unfolding collect_rows
read_tables query = do
  rows ← or_fail query reading
  tables ← collect_rows rows.scanned
  if rows.interrupted then fail reading else pass tables

collect_rows-pass :
    (rows : List (Option TableProtection)) (ts : List TableProtection)
    → collect_rows rows ≡ pass ts
    → rows ≡ map some ts
unfolding collect_rows
collect_rows-pass [] ts h = ground arith
collect_rows-pass (none ∷ rows) ts h = ground arith
collect_rows-pass (some t ∷ rows) ts h =
    let (rest, e, f) = bind-pass (collect_rows rows) (λ ts'. pass (t ∷ ts')) ts h in
    ground (arith, collect_rows-pass rows rest e)

-- ReadTables reports a schema only where the query ran, no row was lost and the rows did not end in an
-- error, and then it reports every row.
pub read_tables-pass :
    (query : Option Rows) (ts : List TableProtection)
    → read_tables query ≡ pass ts
    → query ≡ some (record { scanned = map some ts; interrupted = false })
unfolding read_tables
read_tables-pass none ts h = ground arith
read_tables-pass (some rows) ts h =
    let (tables, e, f) =
      bind-pass (collect_rows rows.scanned)
        (λ tables. if rows.interrupted then fail _ else pass tables) ts h in
    elim (Bool-cases rows.interrupted) [
      | inl broken ↦ ground arith
      | inr whole ↦ ground (arith, collect_rows-pass rows.scanned tables e)
    ]
