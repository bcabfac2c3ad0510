-- ===== src/Storage/Repositories/EventRows.antt =====
-- storage/repositories/event_repo.py, at the level of rows: what Storage/Stream has not.
use ai_engineering_os.Domain.Event.{OsEvent, event_type_enum, transition_outcome_enum}
use ai_engineering_os.Storage.Mappers.Event.{OsEventRow, to_domain_event, to_event_row}
use ai_engineering_os.Storage.Repositories.{RowType, Rows, listed, require_row, rows_where, stage}
use ai_engineering_os.Base.{List, Option, Result, and_then, false, none, some, ℕ, ◌==◌}

-- An append-only row has no version, and is never saved again.
abbrev pub event_row_type : RowType OsEventRow
event_row_type = record {
  id_of = λ row. row.id;
  version_of = λ row. 0;
  at_version = λ version row. row;
  differs = λ a b. false;
}

abbrev number_of : OsEventRow → ℕ
number_of row = value row.sequence_number
  where
    value : Option ℕ → ℕ
    value none = 0
    value (some n) = n

-- The database gives the row its sequence number, which is `number` here.
unfoldable pub add : ℕ → OsEvent → Rows OsEventRow → Result OsEvent × Rows OsEventRow
add number event s =
    let row = record (to_event_row event) { sequence_number = some number } in
    and_then (stage event_row_type row s) (λ _ u. (to_domain_event row, u))

unfoldable pub get_by_id : ℕ → Rows OsEventRow → Result OsEvent × Rows OsEventRow
get_by_id entity_id s =
    and_then (require_row event_row_type entity_id s) (λ row u. (to_domain_event row, u))

unfoldable pub list_by_aggregate : ℕ → Rows OsEventRow → Result (List OsEvent) × Rows OsEventRow
list_by_aggregate aggregate_id s =
    listed to_domain_event
      (rows_where event_row_type (λ row. row.aggregate_id == aggregate_id) (λ row. number_of row) s)
