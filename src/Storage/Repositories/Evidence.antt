-- ===== src/Storage/Repositories/Evidence.antt =====
-- storage/repositories/evidence_repo.py, at the level of rows.
use ai_engineering_os.Domain.Evidence.{EvidenceRecord}
use ai_engineering_os.Storage.Mappers.Evidence.{
  EvidenceRecordRow, to_domain_evidence, to_evidence_row,
}
use ai_engineering_os.Storage.Repositories.{RowType, Rows, listed, require_row, rows_where, stage}
use ai_engineering_os.Base.{List, Result, and_then, false, holds, ℕ}

-- An append-only row has no version, and is never saved again.
abbrev pub evidence_row_type : RowType EvidenceRecordRow
evidence_row_type = record {
  id_of = λ row. row.id;
  version_of = λ row. 0;
  at_version = λ version row. row;
  differs = λ a b. false;
}

unfoldable pub add :
    EvidenceRecord → Rows EvidenceRecordRow → Result (Unit {0}) × Rows EvidenceRecordRow
add evidence s = stage evidence_row_type (to_evidence_row evidence) s

unfoldable pub get_by_id :
    ℕ → Rows EvidenceRecordRow → Result EvidenceRecord × Rows EvidenceRecordRow
get_by_id entity_id s =
    and_then (require_row evidence_row_type entity_id s) (λ row u. (to_domain_evidence row, u))

unfoldable pub list_by_work_package :
    ℕ → Rows EvidenceRecordRow → Result (List EvidenceRecord) × Rows EvidenceRecordRow
list_by_work_package work_package_id s = listed to_domain_evidence (
    rows_where evidence_row_type (λ row. holds row.work_package_id work_package_id)
      (λ row. row.created_at) s)

unfoldable pub list_by_qa_report :
    ℕ → Rows EvidenceRecordRow → Result (List EvidenceRecord) × Rows EvidenceRecordRow
list_by_qa_report qa_report_id s = listed to_domain_evidence (
    rows_where evidence_row_type (λ row. holds row.qa_report_id qa_report_id)
      (λ row. row.created_at) s)
