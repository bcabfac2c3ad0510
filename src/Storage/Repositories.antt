-- ===== src/Storage/Repositories.antt =====
-- storage/repositories/base.py: the mechanics over one table, at the level of rows. `recorded` is
-- what the statements of the transaction find in the table, `loaded` the rows that the repository
-- holds (`_loaded`), as they were read. Of SQLAlchemy, the model uses that a query answers a row it
-- holds already as it is held, that a flush updates a row that `differs` from what was read and no
-- other, and that such an `UPDATE` matches on the version that was read, and raises the version. Of
-- the constraints, only the primary key of the table is here; Storage/Writes has the others. What a
-- database that answers no more does to a call is in Storage/Session.
pub mod Tasks
pub mod Actors
pub mod Features
pub mod Plans
pub mod Reports
pub mod Evidence
pub mod Decisions
pub mod Reviews
pub mod Revisions
pub mod Audits
pub mod EventRows
pub mod WorkPackages
pub mod Locking
pub mod Frozen
pub mod Submitted
pub mod Refines
mod Examples
use ai_engineering_os.Storage.Mappers.{read_all}
use ai_engineering_os.Storage.Session.{read}
use ai_engineering_os.Base.{
  Bool, Error, List, Option, Result, [], err, filter, find, if◌then◌else◌, none, ok, some,
  sorted_by, ℕ, ◌&&◌, ◌++◌, ◌+◌, ◌==◌, ◌∷◌,
}

pub record RowType (Row : Type 0) : Type 0 where
  pub id_of : Row → ℕ
  pub version_of : Row → ℕ
  pub at_version : ℕ → Row → Row
  pub differs : Row → Row → Bool

pub record Rows (Row : Type 0) : Type 0 where
  pub recorded : List Row
  pub loaded : List Row

module _ {Row : Type 0} (t : RowType Row) where
  abbrev pub with_id : ℕ → List Row → Option Row
  with_id entity_id rows = find (λ row. t.id_of row == entity_id) rows

  -- `_track`: `setdefault`, so that a row stays as it was first read.
  unfoldable pub track : Row → Rows Row → Rows Row
  track row s = known (with_id (t.id_of row) s.loaded)
    where
      known : Option Row → Rows Row
      known none = record s { loaded = s.loaded ++ row ∷ [] }
      known (some _) = s

  -- `_stage`, and the `INSERT` of the flush: the primary key is new.
  unfoldable pub stage : Row → Rows Row → Result (Unit {0}) × Rows Row
  stage row s = inserted (with_id (t.id_of row) s.recorded)
    where
      inserted : Option Row → Result (Unit {0}) × Rows Row
      inserted (some _) = (err Error.integrity_constraint, s)
      inserted none = (ok tt, track row (record s { recorded = s.recorded ++ row ∷ [] }))

  unfoldable pub get_row : ℕ → Rows Row → Option Row × Rows Row
  get_row entity_id s = held (with_id entity_id s.loaded)
    where
      read : Option Row → Option Row × Rows Row
      read none = (none, s)
      read (some row) = (some row, track row s)

      held : Option Row → Option Row × Rows Row
      held (some row) = (some row, s)
      held none = read (with_id entity_id s.recorded)

  unfoldable pub require_row : ℕ → Rows Row → Result Row × Rows Row
  require_row entity_id s = found (get_row entity_id s)
    where
      found : Option Row × Rows Row → Result Row × Rows Row
      found (none, u) = (err Error.not_found, u)
      found (some row, u) = (ok row, u)

  unfoldable pub track_all : List Row → Rows Row → List Row × Rows Row
  track_all [] s = ([], s)
  track_all (row ∷ rows) s =
      let held = with_id (t.id_of row) s.loaded in
      let (rest, u) = track_all rows (track row s) in
      (elim held [ none ↦ row ∷ rest | some before ↦ before ∷ rest ], u)

  -- `_rows_where`, ordered by a column.
  unfoldable pub rows_where : (Row → Bool) → (Row → ℕ) → Rows Row → List Row × Rows Row
  rows_where criteria order_by s = track_all (sorted_by order_by (filter criteria s.recorded)) s

  abbrev pub after_row : Row → Option (List Row) → Option (List Row)
  after_row x none = none
  after_row x (some rows) = some (x ∷ rows)

  -- `UPDATE ... WHERE id = ... AND version = ...`: the table after it, or `none` where no row matched.
  unfoldable pub update_row : ℕ → ℕ → Row → List Row → Option (List Row)
  update_row entity_id version row [] = none
  update_row entity_id version row (x ∷ xs) =
      let later = update_row entity_id version row xs in
      if t.id_of x == entity_id && t.version_of x == version
      then some (row ∷ xs)
      else after_row x later

  -- The row that the repository holds under an identifier, changed in place.
  unfoldable pub hold : Row → List Row → List Row
  hold row [] = []
  hold row (x ∷ xs) =
      let later = hold row xs in if t.id_of x == t.id_of row then row ∷ xs else x ∷ later

  -- `_save_row`
  unfoldable pub save_row : Row → (Row → Row) → Rows Row → Result (Unit {0}) × Rows Row
  save_row row mutate s =
      let changed = t.at_version (t.version_of row + 1) (mutate row) in
      let flushed = update_row (t.id_of row) (t.version_of row) changed s.recorded in
      if t.differs (mutate row) row
      then elim flushed [
        | none ↦ (err Error.concurrency_conflict, record s { loaded = hold (mutate row) s.loaded })
        | some rows ↦ (ok tt, record s { recorded = rows; loaded = hold changed s.loaded })
      ]
      else (ok tt, s)

-- `tuple(to_domain(row) for row in rows)`
unfoldable pub listed :
    {Row Entity : Type 0}
    → (Row → Result Entity)
    → List Row × Rows Row
    → Result (List Entity) × Rows Row
listed to_domain (rows, s) = (read_all to_domain rows, s)
