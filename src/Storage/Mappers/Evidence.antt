-- ===== src/Storage/Mappers/Evidence.antt =====
-- storage/models/evidence.py and storage/mappers/evidence.py, without the metadata column, which the
-- model of the entity leaves out.
use ai_engineering_os.Base.{Bool, Option, Result, String, ℕ, ◌>>=◌}
use ai_engineering_os.Storage.Mappers.{read_member, reconstruct, value_of}
use ai_engineering_os.Domain.Enums.{
  actor_role_enum, capability_type_enum, decision_scope_enum, defect_status_enum,
  evidence_source_type_enum, evidence_type_enum, feature_status_enum, initiator_enum,
  plan_status_enum, qa_status_enum, review_outcome_enum, task_status_enum, work_package_status_enum,
}
use ai_engineering_os.Domain.Evidence.{EvidenceRecord, is_valid_evidence}

pub record EvidenceRecordRow : Type 0 where
  pub id : ℕ
  pub source_type : String
  pub evidence_type : String
  pub content : String
  pub checksum : String
  pub work_package_id : Option ℕ
  pub qa_report_id : Option ℕ
  pub verified_by_os : Bool
  pub created_at : ℕ

unfoldable pub to_evidence_row : EvidenceRecord → EvidenceRecordRow
to_evidence_row evidence = record {
  id = evidence.id;
  source_type = value_of evidence.source_type;
  evidence_type = value_of evidence.evidence_type;
  content = evidence.content;
  checksum = evidence.checksum;
  work_package_id = evidence.work_package_id;
  qa_report_id = evidence.qa_report_id;
  verified_by_os = evidence.verified_by_os;
  created_at = evidence.created_at;
}

unfoldable pub to_domain_evidence : EvidenceRecordRow → Result EvidenceRecord
to_domain_evidence row = do
  source_type ← read_member row.source_type
  evidence_type ← read_member row.evidence_type
  reconstruct is_valid_evidence (record {
    id = row.id;
    source_type = source_type;
    evidence_type = evidence_type;
    content = row.content;
    checksum = row.checksum;
    work_package_id = row.work_package_id;
    qa_report_id = row.qa_report_id;
    verified_by_os = row.verified_by_os;
    created_at = row.created_at;
  })
