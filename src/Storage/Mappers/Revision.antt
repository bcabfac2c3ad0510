-- ===== src/Storage/Mappers/Revision.antt =====
-- storage/models/task.py and storage/mappers/task.py: Task Revisions and their history.
use ai_engineering_os.Base.{Bool, List, Option, Result, leb, sorted_by, ℕ, ◌>>=◌}
use ai_engineering_os.Storage.Mappers.{read_all, reconstruct}
use ai_engineering_os.Domain.Enums.{
  actor_role_enum, capability_type_enum, decision_scope_enum, defect_status_enum,
  evidence_source_type_enum, evidence_type_enum, feature_status_enum, initiator_enum,
  plan_status_enum, qa_status_enum, review_outcome_enum, task_status_enum, work_package_status_enum,
}
use ai_engineering_os.Domain.Task.Revision.{TaskRevision, TaskRevisionHistory, is_valid_history}

pub record TaskRevisionRow : Type 0 where
  pub id : ℕ
  pub task_id : ℕ
  pub revision_number : ℕ
  pub created_by_worker_id : ℕ
  pub work_package_id : Option ℕ
  pub review_decision_id : Option ℕ
  pub qa_report_id : Option ℕ
  pub created_at : ℕ

unfoldable pub to_revision_row : TaskRevision → TaskRevisionRow
to_revision_row revision = record {
  id = revision.id;
  task_id = revision.task_id;
  revision_number = revision.revision_number;
  created_by_worker_id = revision.created_by_worker_id;
  work_package_id = revision.work_package_id;
  review_decision_id = revision.review_decision_id;
  qa_report_id = revision.qa_report_id;
  created_at = revision.created_at;
}

-- The bound `ge=1` of `TaskRevision`.
abbrev pub is_valid_revision : TaskRevision → Bool
is_valid_revision revision = leb 1 revision.revision_number

unfoldable pub to_domain_revision : TaskRevisionRow → Result TaskRevision
to_domain_revision row = do
  reconstruct is_valid_revision (record {
    id = row.id;
    task_id = row.task_id;
    revision_number = row.revision_number;
    created_by_worker_id = row.created_by_worker_id;
    work_package_id = row.work_package_id;
    review_decision_id = row.review_decision_id;
    qa_report_id = row.qa_report_id;
    created_at = row.created_at;
  })

abbrev pub number_of : TaskRevisionRow → ℕ
number_of row = row.revision_number

unfoldable pub to_domain_revision_history : ℕ → List TaskRevisionRow → Result TaskRevisionHistory
to_domain_revision_history task_id rows = do
  revisions ← read_all to_domain_revision (sorted_by number_of rows)
  reconstruct is_valid_history (record { task_id = task_id; revisions = revisions })
