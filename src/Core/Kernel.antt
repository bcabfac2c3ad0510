-- ===== src/Core/Kernel.antt =====
-- core/kernel.py: the operations of the kernel. Each reads, then hands one request to the runner.
pub mod Mutating
pub mod Asking
pub mod Clean
pub mod Invariants
pub mod History
pub mod Calls
use ai_engineering_os.Storage.Session.{Action, done, lift, read, utc_now, ◌>>=◌, ◌>>◌}
use ai_engineering_os.Storage.Writes.{add_report}
use ai_engineering_os.Storage.Database.{get_feature, get_history, get_task, list_active_by_role}
use ai_engineering_os.Base.{Option, none, ok, some, ℕ}
use ai_engineering_os.Domain.Enums.{
  ActorRole, FeatureStatus, Initiator, TaskStatus, actor_role_enum, capability_type_enum,
  evidence_type_enum, feature_status_enum, initiator_enum, plan_status_enum, qa_status_enum,
  review_outcome_enum, task_status_enum, work_package_status_enum,
}
use ai_engineering_os.Domain.Actor.{Actor}
use ai_engineering_os.Domain.Task.{Task, routed_to_reviewer}
use ai_engineering_os.Domain.Qa.{QaReport}
use ai_engineering_os.Core.Routing.{select_reviewer}
use ai_engineering_os.Core.Requests.{
  activate_plan_request, assign_task_request, return_for_rework_request, route_for_review_request,
  transition_feature_request, transition_task_request,
}
use ai_engineering_os.Core.Runner.{TransitionResult, run}

unfoldable pub transition_task :
    ℕ → TaskStatus → Initiator → Option ℕ → Option ℕ → Action (TransitionResult TaskStatus)
transition_task task_id to_state initiator initiator_id candidate_worker_id = do
  request ←
      read (λ db.
        transition_task_request db task_id to_state initiator initiator_id candidate_worker_id)
  run request

unfoldable pub assign_task : ℕ → ℕ → ℕ → Action (TransitionResult TaskStatus)
assign_task task_id worker_id coordinator_id = do
  request ← read (λ db. assign_task_request db task_id worker_id coordinator_id)
  run request

-- `routed`: the Task itself when nobody is eligible.
unfoldable pub routed_task : Task → Option Actor → Action Task
routed_task task none = done task
routed_task task (some reviewer) = do at ← utc_now; lift (routed_to_reviewer task reviewer.id at)

abbrev id_of : Option Actor → Option ℕ
id_of none = none
id_of (some actor) = some actor.id

unfoldable pub route_for_review : ℕ → Action (TransitionResult TaskStatus)
route_for_review task_id = do
  task ← read (λ db. get_task db task_id)
  history ← read (λ db. get_history db task.id)
  candidates ← read (λ db. ok (list_active_by_role db ActorRole.reviewer))
  let reviewer = select_reviewer task candidates history.revisions
  routed ← routed_task task reviewer
  request ← read (λ db. route_for_review_request db task routed candidates (id_of reviewer))
  run request

unfoldable pub transition_feature :
    ℕ → FeatureStatus → Initiator → Option ℕ → Action (TransitionResult FeatureStatus)
transition_feature feature_id to_state initiator initiator_id = do
  request ← read (λ db. transition_feature_request db feature_id to_state initiator initiator_id)
  run request

unfoldable pub return_for_rework : ℕ → Initiator → ℕ → Action (TransitionResult FeatureStatus)
return_for_rework feature_id initiator initiator_id = do
  request ← read (λ db. return_for_rework_request db feature_id initiator initiator_id)
  run request

unfoldable pub activate_plan : ℕ → ℕ → Action (TransitionResult FeatureStatus)
activate_plan plan_id coordinator_id = do
  request ← read (λ db. activate_plan_request db plan_id coordinator_id)
  run request

-- The round of the report is that of the Feature; nothing is committed here.
unfoldable pub record_qa_report : QaReport → Action QaReport
record_qa_report report = do
  feature ← read (λ db. get_feature db report.feature_id)
  let stamped = record report { qa_round = feature.qa_round }
  add_report stamped
  done stamped
