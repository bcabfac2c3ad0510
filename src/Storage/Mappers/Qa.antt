-- ===== src/Storage/Mappers/Qa.antt =====
-- storage/models/qa.py and storage/mappers/qa.py. A JSONB column holds the JSON value that is written
-- to it.
use ai_engineering_os.Storage.Mappers.Json.{JsonObject, Uuids, dump_result, read_result, read_uuid}
use ai_engineering_os.Base.{Bool, List, Option, Result, String, map, sorted_by, ℕ, ◌>>=◌}
use ai_engineering_os.Storage.Mappers.{read_all, read_member, reconstruct, rows_from, value_of}
use ai_engineering_os.Domain.Enums.{
  actor_role_enum, capability_type_enum, decision_scope_enum, defect_status_enum,
  evidence_source_type_enum, evidence_type_enum, feature_status_enum, initiator_enum,
  plan_status_enum, qa_status_enum, review_outcome_enum, task_status_enum, work_package_status_enum,
}
use ai_engineering_os.Domain.Qa.{QaDefect, QaReport, is_valid_defect, is_valid_report}

pub record QaReportRow : Type 0 where
  pub id : ℕ
  pub feature_id : ℕ
  pub status : String
  pub qa_round : ℕ
  pub task_revision_id : Option ℕ
  pub is_final_pass : Bool
  pub tested_scope : List String
  pub results : List JsonObject
  pub evidence_ids : List String
  pub created_at : ℕ

unfoldable pub to_qa_report_row : Uuids → QaReport → QaReportRow
to_qa_report_row uuids qa_report = record {
  id = qa_report.id;
  feature_id = qa_report.feature_id;
  status = value_of qa_report.status;
  qa_round = qa_report.qa_round;
  task_revision_id = qa_report.task_revision_id;
  is_final_pass = qa_report.is_final_pass;
  tested_scope = qa_report.tested_scope;
  results = map dump_result qa_report.results;
  evidence_ids = map uuids.print qa_report.evidence_ids;
  created_at = qa_report.created_at;
}

pub record QaDefectRow : Type 0 where
  pub id : ℕ
  pub qa_report_id : ℕ
  pub position : ℕ
  pub title : String
  pub severity : String
  pub priority : String
  pub is_blocker : Bool
  pub status : String
  pub scope_task_id : Option ℕ
  pub scope_feature_id : Option ℕ

abbrev pub to_defect_row : ℕ → ℕ → QaDefect → QaDefectRow
to_defect_row qa_report_id position defect = record {
  id = defect.id;
  qa_report_id = qa_report_id;
  position = position;
  title = defect.title;
  severity = defect.severity;
  priority = defect.priority;
  is_blocker = defect.is_blocker;
  status = value_of defect.status;
  scope_task_id = defect.scope_task_id;
  scope_feature_id = defect.scope_feature_id;
}

unfoldable pub to_defect_rows : QaReport → List QaDefectRow
to_defect_rows report = rows_from (to_defect_row report.id) 0 report.defects

abbrev pub position_of_defect : QaDefectRow → ℕ
position_of_defect row = row.position

unfoldable pub read_defect : QaDefectRow → Result QaDefect
read_defect row = do
  status ← read_member row.status
  reconstruct is_valid_defect (record {
    id = row.id;
    title = row.title;
    severity = row.severity;
    priority = row.priority;
    is_blocker = row.is_blocker;
    status = status;
    scope_task_id = row.scope_task_id;
    scope_feature_id = row.scope_feature_id;
  })

unfoldable pub to_domain_qa_report : Uuids → QaReportRow → List QaDefectRow → Result QaReport
to_domain_qa_report uuids row defects_rows = do
  status ← read_member row.status
  defects ← read_all read_defect (sorted_by position_of_defect defects_rows)
  results ← read_all read_result row.results
  evidence_ids ← read_all (read_uuid uuids) row.evidence_ids
  reconstruct is_valid_report (record {
    id = row.id;
    feature_id = row.feature_id;
    status = status;
    qa_round = row.qa_round;
    task_revision_id = row.task_revision_id;
    is_final_pass = row.is_final_pass;
    tested_scope = row.tested_scope;
    results = results;
    evidence_ids = evidence_ids;
    created_at = row.created_at;
    defects = defects;
  })
