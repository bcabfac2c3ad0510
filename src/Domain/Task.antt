-- ===== src/Domain/Task.antt =====
-- domain/task.py: Tasks, their Revisions, the additive history, and who worked on a Task.
-- Identifiers are numbers, and so are the readings of the clock that Python takes from `utc_now`:
-- an operation is given the one it uses as `at`.
pub mod Revision
use ai_engineering_os.Base.{
  Bool, Error, List, Option, Result, String, any, err, false, holds, if◌then◌else◌, is_empty,
  is_some, leb, ltb, no_duplicates, none, not, ok, same, some, true, ℕ, ◌&&◌, ◌==◌,
}
use ai_engineering_os.Domain.Enums.{
  CapabilityType, TaskStatus, actor_role_enum, capability_type_enum, evidence_type_enum,
  feature_status_enum, initiator_enum, plan_status_enum, task_status_enum, work_package_status_enum,
}

pub record Task : Type 0 where
  pub id : ℕ
  pub feature_id : ℕ
  pub feature_plan_id : ℕ
  pub plan_definition_key : String
  pub title : String
  pub capability : CapabilityType
  pub status : TaskStatus
  pub assigned_worker_id : Option ℕ
  pub reviewer_id : Option ℕ
  pub dependencies : List ℕ
  pub active_revision_number : ℕ
  pub created_at : ℕ
  pub updated_at : ℕ

-- `status in UNASSIGNED_STATUSES`
unfoldable pub is_unassigned_status : TaskStatus → Bool
is_unassigned_status TaskStatus.created = true
is_unassigned_status TaskStatus.pending_dependencies = true
is_unassigned_status TaskStatus.ready = true
is_unassigned_status _ = false

-- `status in ASSIGNMENT_REQUIRED_STATUSES`
unfoldable pub requires_assignment : TaskStatus → Bool
unfolding is_unassigned_status
requires_assignment status = not (is_unassigned_status status)

-- `status in REVISION_REQUIRED_STATUSES`
unfoldable pub requires_revision : TaskStatus → Bool
requires_revision TaskStatus.submitted = true
requires_revision TaskStatus.in_review = true
requires_revision TaskStatus.in_qa = true
requires_revision TaskStatus.revision_required = true
requires_revision TaskStatus.accepted = true
requires_revision _ = false

-- `status in REVIEWER_REQUIRED_STATUSES`
unfoldable pub requires_reviewer : TaskStatus → Bool
requires_reviewer TaskStatus.in_review = true
requires_reviewer TaskStatus.in_qa = true
requires_reviewer TaskStatus.revision_required = true
requires_reviewer TaskStatus.accepted = true
requires_reviewer _ = false

unfoldable pub dependencies_are_well_formed : Task → Bool
unfolding any no_duplicates
dependencies_are_well_formed task =
    not (any (λ d. d == task.id) task.dependencies) && no_duplicates ◌==◌ task.dependencies

unfoldable pub pending_has_dependencies : Task → Bool
pending_has_dependencies task =
    not (same task.status TaskStatus.pending_dependencies && is_empty task.dependencies)

unfoldable pub assignment_matches_status : Task → Bool
unfolding is_unassigned_status requires_assignment
assignment_matches_status task =
    not (is_unassigned_status task.status && is_some task.assigned_worker_id)
    && not (requires_assignment task.status && not (is_some task.assigned_worker_id))

unfoldable pub routing_matches_status : Task → Bool
unfolding is_unassigned_status requires_reviewer
routing_matches_status task =
    not (is_unassigned_status task.status && is_some task.reviewer_id)
    && not (requires_reviewer task.status && not (is_some task.reviewer_id))

abbrev both_are : Option ℕ → Option ℕ → Bool
both_are (some a) (some b) = a == b
both_are none b = false
both_are (some a) none = false

unfoldable pub reviewer_is_not_the_worker : Task → Bool
reviewer_is_not_the_worker task = not (both_are task.reviewer_id task.assigned_worker_id)

unfoldable pub post_submission_has_revision : Task → Bool
unfolding requires_revision
post_submission_has_revision task =
    not (requires_revision task.status && ltb task.active_revision_number 1)

unfoldable pub is_valid_task : Task → Bool
unfolding dependencies_are_well_formed pending_has_dependencies assignment_matches_status
    routing_matches_status reviewer_is_not_the_worker post_submission_has_revision
is_valid_task task =
    dependencies_are_well_formed task
    && (pending_has_dependencies task
        && (assignment_matches_status task
            && (routing_matches_status task
                && (reviewer_is_not_the_worker task
                    && (post_submission_has_revision task
                        && leb task.created_at task.updated_at)))))

-- `Task.model_validate`
unfoldable pub validated : Task → Result Task
validated task = if is_valid_task task then ok task else err Error.validation

unfoldable pub with_status : Task → TaskStatus → ℕ → Result Task
unfolding validated
with_status task status at = validated (record task { status = status; updated_at = at })

unfoldable pub assign : Task → ℕ → ℕ → Result Task
unfolding validated
assign task worker_id at = validated (record task {
  status = TaskStatus.assigned;
  assigned_worker_id = some worker_id;
  updated_at = at;
})

unfoldable pub with_active_revision : Task → ℕ → ℕ → Result Task
unfolding validated
with_active_revision task revision_number at =
    if leb revision_number task.active_revision_number
    then err Error.revision_sequence
    else validated (record task { active_revision_number = revision_number; updated_at = at })

unfoldable pub routed_to_reviewer : Task → ℕ → ℕ → Result Task
unfolding validated
routed_to_reviewer task reviewer_id at =
    validated (record task {
      status = TaskStatus.in_review;
      reviewer_id = some reviewer_id;
      updated_at = at;
    })

unfoldable pub is_reviewed_by : Task → ℕ → Bool
is_reviewed_by task actor_id = holds task.reviewer_id actor_id

unfoldable pub is_assigned_to : Task → ℕ → Bool
is_assigned_to task actor_id = holds task.assigned_worker_id actor_id
