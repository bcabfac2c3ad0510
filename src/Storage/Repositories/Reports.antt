-- ===== src/Storage/Repositories/Reports.antt =====
-- storage/repositories/qa_repo.py, at the level of rows.
use ai_engineering_os.Storage.Mappers.Json.{Uuids}
use ai_engineering_os.Storage.Mappers.Qa.{
  QaDefectRow, QaReportRow, position_of_defect, to_defect_rows, to_domain_qa_report,
  to_qa_report_row,
}
use ai_engineering_os.Domain.Qa.{QaReport}
use ai_engineering_os.Storage.Repositories.{RowType, Rows, listed, require_row, rows_where, stage}
use ai_engineering_os.Base.{List, Result, and_then, false, filter, ok, sorted_by, ℕ, ◌++◌, ◌==◌}

pub record ReportRepository : Type 0 where
  pub rows : Rows QaReportRow
  pub defects : List QaDefectRow

-- An append-only row has no version, and is never saved again.
abbrev pub report_row_type : RowType QaReportRow
report_row_type = record {
  id_of = λ row. row.id;
  version_of = λ row. 0;
  at_version = λ version row. row;
  differs = λ a b. false;
}

abbrev put :
    ReportRepository
    → {Value : Type 0} → Result Value × Rows QaReportRow
    → Result Value × ReportRepository
put s (result, rows) = (result, record s { rows = rows })

unfoldable pub add : Uuids → QaReport → ReportRepository → Result (Unit {0}) × ReportRepository
add uuids qa_report s =
    and_then (put s (stage report_row_type (to_qa_report_row uuids qa_report) s.rows))
      (λ _ u. (ok tt, record u { defects = u.defects ++ to_defect_rows qa_report }))

unfoldable pub defects_of : ℕ → List QaDefectRow → List QaDefectRow
defects_of entity_id children =
    sorted_by position_of_defect (filter (λ child. child.qa_report_id == entity_id) children)

unfoldable pub get_by_id : Uuids → ℕ → ReportRepository → Result QaReport × ReportRepository
get_by_id uuids entity_id s =
    and_then (put s (require_row report_row_type entity_id s.rows))
      (λ row u. (to_domain_qa_report uuids row (defects_of entity_id u.defects), u))

unfoldable pub list_by_feature :
    Uuids → ℕ → ReportRepository → Result (List QaReport) × ReportRepository
list_by_feature uuids feature_id s = put s (
    listed (λ row. to_domain_qa_report uuids row (defects_of row.id s.defects))
      (rows_where report_row_type (λ row. row.feature_id == feature_id) (λ row. row.created_at)
        s.rows))
