-- ===== src/Storage/Mappers/WorkPackage.antt =====
-- storage/models/work_package.py and storage/mappers/work_package.py.
use ai_engineering_os.Base.{List, Option, Result, String, ℕ, ◌>>=◌}
use ai_engineering_os.Storage.Mappers.{read_member, reconstruct, value_of}
use ai_engineering_os.Domain.Enums.{
  actor_role_enum, capability_type_enum, decision_scope_enum, defect_status_enum,
  evidence_source_type_enum, evidence_type_enum, feature_status_enum, initiator_enum,
  plan_status_enum, qa_status_enum, review_outcome_enum, task_status_enum, work_package_status_enum,
}
use ai_engineering_os.Domain.WorkPackage.{Claim, VerificationGuide, WorkPackage, is_valid_package}

pub record WorkPackageRow : Type 0 where
  pub id : ℕ
  pub task_revision_id : ℕ
  pub summary : String
  pub status : String
  pub claims : List Claim
  pub verification_guide : Option VerificationGuide
  pub worker_notes : List String
  pub risks : Option String
  pub submitted_at : Option ℕ
  pub version : ℕ

-- What `apply_work_package` writes on a row; the identifier and the version are the row's own.
abbrev work_package_columns : WorkPackage → ℕ → ℕ → WorkPackageRow
work_package_columns work_package id version = record {
  id = id;
  version = version;
  task_revision_id = work_package.task_revision_id;
  summary = work_package.summary;
  status = value_of work_package.status;
  claims = work_package.claims;
  verification_guide = work_package.verification_guide;
  worker_notes = work_package.worker_notes;
  risks = work_package.risks;
  submitted_at = work_package.submitted_at;
}

unfoldable pub apply_work_package : WorkPackage → WorkPackageRow → WorkPackageRow
apply_work_package work_package row = work_package_columns work_package row.id row.version

unfoldable pub to_work_package_row : WorkPackage → WorkPackageRow
to_work_package_row work_package = work_package_columns work_package work_package.id 1

unfoldable pub to_domain_work_package : WorkPackageRow → Result WorkPackage
to_domain_work_package row = do
  status ← read_member row.status
  reconstruct is_valid_package (record {
    id = row.id;
    task_revision_id = row.task_revision_id;
    summary = row.summary;
    status = status;
    claims = row.claims;
    verification_guide = row.verification_guide;
    worker_notes = row.worker_notes;
    risks = row.risks;
    submitted_at = row.submitted_at;
  })
