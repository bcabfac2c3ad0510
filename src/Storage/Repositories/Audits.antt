-- ===== src/Storage/Repositories/Audits.antt =====
-- storage/repositories/transition_audit_repo.py, at the level of rows.
use ai_engineering_os.Storage.Mappers.Event.{
  StateTransitionAuditRow, to_domain_transition_audit, to_transition_audit_row,
}
use ai_engineering_os.Domain.Event.{
  TransitionAuditRecord, TransitionOutcome, event_type_enum, transition_outcome_enum,
}
use ai_engineering_os.Storage.Repositories.{RowType, Rows, listed, require_row, rows_where, stage}
use ai_engineering_os.Storage.Mappers.{value_of}
use ai_engineering_os.Base.{
  List, Option, Result, and_then, false, none, some, str_eq, ℕ, ◌&&◌, ◌==◌,
}

-- An append-only row has no version, and is never saved again.
abbrev pub audit_row_type : RowType StateTransitionAuditRow
audit_row_type = record {
  id_of = λ row. row.id;
  version_of = λ row. 0;
  at_version = λ version row. row;
  differs = λ a b. false;
}

abbrev number_of : StateTransitionAuditRow → ℕ
number_of row = value row.sequence_number
  where
    value : Option ℕ → ℕ
    value none = 0
    value (some n) = n

-- The database gives the row its sequence number, which is `number` here.
unfoldable pub add :
    ℕ
    → TransitionAuditRecord
    → Rows StateTransitionAuditRow
    → Result TransitionAuditRecord × Rows StateTransitionAuditRow
add number transition_audit s =
    let row = record (to_transition_audit_row transition_audit) { sequence_number = some number } in
    and_then (stage audit_row_type row s) (λ _ u. (to_domain_transition_audit row, u))

unfoldable pub get_by_id :
    ℕ → Rows StateTransitionAuditRow → Result TransitionAuditRecord × Rows StateTransitionAuditRow
get_by_id entity_id s =
    and_then (require_row audit_row_type entity_id s) (λ row u. (to_domain_transition_audit row, u))

unfoldable pub list_by_entity :
    ℕ
    → Rows StateTransitionAuditRow
    → Result (List TransitionAuditRecord) × Rows StateTransitionAuditRow
list_by_entity entity_id s =
    listed to_domain_transition_audit
      (rows_where audit_row_type (λ row. row.entity_id == entity_id) (λ row. number_of row) s)

unfoldable pub list_rejections_for :
    ℕ
    → Rows StateTransitionAuditRow
    → Result (List TransitionAuditRecord) × Rows StateTransitionAuditRow
list_rejections_for entity_id s = listed to_domain_transition_audit (
    rows_where audit_row_type
      (λ row.
        row.entity_id == entity_id && str_eq row.outcome (value_of TransitionOutcome.rejected))
      (λ row. number_of row) s)
