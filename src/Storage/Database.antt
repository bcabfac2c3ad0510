-- ===== src/Storage/Database.antt =====
-- storage/models and the reads of storage/repositories. A table is the list of the entities that its
-- rows stand for, in the order of insertion; a read of one table is a function of it. Of PostgreSQL,
-- the model uses that a query returns the rows that satisfy its criteria, in the order asked for;
-- rows that tie stand in the order of insertion here.
use ai_engineering_os.Base.{
  Error, List, Result, [], err, filter, find, holds, if◌then◌else◌, ok, same, sorted, sorted_by, ℕ,
  ◌&&◌, ◌==◌, ◌∷◌,
}
use ai_engineering_os.Domain.Actor.{Actor}
use ai_engineering_os.Domain.Task.{Task}
use ai_engineering_os.Domain.Task.Revision.{TaskRevision, TaskRevisionHistory, validated_history}
use ai_engineering_os.Domain.Feature.{Feature}
use ai_engineering_os.Domain.Plan.{FeaturePlan}
use ai_engineering_os.Domain.Qa.{QaReport}
use ai_engineering_os.Domain.Evidence.{EvidenceRecord}
use ai_engineering_os.Domain.WorkPackage.{WorkPackage}
use ai_engineering_os.Domain.Decision.{ReviewDecision}
use ai_engineering_os.Domain.Event.{OsEvent, TransitionAuditRecord}
use ai_engineering_os.Domain.Enums.{
  ActorRole, actor_role_enum, capability_type_enum, evidence_type_enum, feature_status_enum,
  initiator_enum, plan_status_enum, qa_status_enum, review_outcome_enum, task_status_enum,
  work_package_status_enum,
}

pub record Database : Type 0 where
  pub actors : List Actor
  pub features : List Feature
  pub feature_plans : List FeaturePlan
  pub tasks : List Task
  pub task_revisions : List TaskRevision
  pub work_packages : List WorkPackage
  pub evidence : List EvidenceRecord
  pub qa_reports : List QaReport
  pub review_decisions : List ReviewDecision
  pub events : List OsEvent
  pub transition_audit : List TransitionAuditRecord

-- `_require_row`
unfoldable pub require_row : {Row : Type 0} → (Row → ℕ) → ℕ → List Row → Result Row
unfolding find
require_row key entity_id [] = err Error.not_found
require_row key entity_id (row ∷ rows) =
    let later = require_row key entity_id rows in if key row == entity_id then ok row else later

unfoldable pub get_actor : Database → ℕ → Result Actor
unfolding require_row
get_actor db actor_id = require_row (λ (a : Actor). a.id) actor_id db.actors

unfoldable pub get_feature : Database → ℕ → Result Feature
unfolding require_row
get_feature db feature_id = require_row (λ (f : Feature). f.id) feature_id db.features

unfoldable pub get_plan : Database → ℕ → Result FeaturePlan
unfolding require_row
get_plan db plan_id = require_row (λ (p : FeaturePlan). p.id) plan_id db.feature_plans

unfoldable pub get_task : Database → ℕ → Result Task
unfolding require_row
get_task db task_id = require_row (λ (t : Task). t.id) task_id db.tasks

unfoldable pub get_work_package : Database → ℕ → Result WorkPackage
unfolding require_row
get_work_package db package_id = require_row (λ (p : WorkPackage). p.id) package_id db.work_packages

-- `list_active_by_role`: ordered by identifier.
unfoldable pub list_active_by_role : Database → ActorRole → List Actor
unfolding filter sorted
list_active_by_role db held =
    sorted_by (λ (a : Actor). a.id)
      (filter (λ (a : Actor). same a.role held && a.is_active) db.actors)

unfoldable pub list_tasks_by_feature : Database → ℕ → List Task
unfolding filter sorted
list_tasks_by_feature db feature_id =
    sorted_by (λ (t : Task). t.created_at)
      (filter (λ (t : Task). t.feature_id == feature_id) db.tasks)

-- Oldest revision first.
unfoldable pub list_plans_by_feature : Database → ℕ → List FeaturePlan
unfolding filter sorted
list_plans_by_feature db feature_id =
    sorted_by (λ (p : FeaturePlan). p.revision_number)
      (filter (λ (p : FeaturePlan). p.feature_id == feature_id) db.feature_plans)

unfoldable pub list_reports_by_feature : Database → ℕ → List QaReport
unfolding filter sorted
list_reports_by_feature db feature_id =
    sorted_by (λ (r : QaReport). r.created_at)
      (filter (λ (r : QaReport). r.feature_id == feature_id) db.qa_reports)

unfoldable pub get_history : Database → ℕ → Result TaskRevisionHistory
unfolding filter sorted validated_history
get_history db task_id = validated_history (record {
  task_id = task_id;
  revisions =
      sorted_by (λ (r : TaskRevision). r.revision_number)
        (filter (λ (r : TaskRevision). r.task_id == task_id) db.task_revisions);
})

unfoldable pub list_reviews_by_task_revision : Database → ℕ → List ReviewDecision
unfolding filter sorted
list_reviews_by_task_revision db revision_id =
    sorted_by (λ (r : ReviewDecision). r.created_at)
      (filter (λ (r : ReviewDecision). r.task_revision_id == revision_id) db.review_decisions)

unfoldable pub list_evidence_by_work_package : Database → ℕ → List EvidenceRecord
unfolding filter sorted
list_evidence_by_work_package db package_id =
    sorted_by (λ (e : EvidenceRecord). e.created_at)
      (filter (λ (e : EvidenceRecord). holds e.work_package_id package_id) db.evidence)

unfoldable pub list_evidence_by_qa_report : Database → ℕ → List EvidenceRecord
unfolding filter sorted
list_evidence_by_qa_report db report_id =
    sorted_by (λ (e : EvidenceRecord). e.created_at)
      (filter (λ (e : EvidenceRecord). holds e.qa_report_id report_id) db.evidence)
