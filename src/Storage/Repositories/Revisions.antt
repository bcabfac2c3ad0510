-- ===== src/Storage/Repositories/Revisions.antt =====
-- storage/repositories/task_revision_repo.py, at the level of rows.
use ai_engineering_os.Domain.Task.Revision.{TaskRevision, TaskRevisionHistory}
use ai_engineering_os.Storage.Mappers.Revision.{
  TaskRevisionRow, to_domain_revision, to_domain_revision_history, to_revision_row,
}
use ai_engineering_os.Storage.Repositories.{RowType, Rows, require_row, rows_where, stage}
use ai_engineering_os.Base.{List, Result, and_then, false, ℕ, ◌==◌}

-- An append-only row has no version, and is never saved again.
abbrev pub revision_row_type : RowType TaskRevisionRow
revision_row_type = record {
  id_of = λ row. row.id;
  version_of = λ row. 0;
  at_version = λ version row. row;
  differs = λ a b. false;
}

unfoldable pub add : TaskRevision → Rows TaskRevisionRow → Result (Unit {0}) × Rows TaskRevisionRow
add revision s = stage revision_row_type (to_revision_row revision) s

unfoldable pub get_by_id : ℕ → Rows TaskRevisionRow → Result TaskRevision × Rows TaskRevisionRow
get_by_id entity_id s =
    and_then (require_row revision_row_type entity_id s) (λ row u. (to_domain_revision row, u))

unfoldable pub get_history :
    ℕ → Rows TaskRevisionRow → Result TaskRevisionHistory × Rows TaskRevisionRow
get_history task_id s =
    assembled
      (rows_where revision_row_type (λ row. row.task_id == task_id) (λ row. row.revision_number) s)
  where
    assembled :
        List TaskRevisionRow × Rows TaskRevisionRow
        → Result TaskRevisionHistory × Rows TaskRevisionRow
    assembled (rows, u) = (to_domain_revision_history task_id rows, u)
