-- ===== src/State/TaskSm/Walks.antt =====
-- What every walk through the Task lifecycle of state/task_sm.py has to pass.
use ai_engineering_os.Base.{Bool, List, Memᴰ, [], all, any, elem, not, refl, some, ◌∷◌, ◌≡◌}
use ai_engineering_os.Domain.Enums.{
  ActorRole, SystemActor, TaskStatus, role, system, actor_role_enum, capability_type_enum,
  evidence_type_enum, feature_status_enum, initiator_enum, plan_status_enum, task_status_enum,
  work_package_status_enum,
}
use ai_engineering_os.State.TaskSm.{task_state_machine}
use ai_engineering_os.State.Walk.{Request, walk, walk_gate}

abbrev among : List TaskStatus → TaskStatus → Bool
among states s = elem s states

-- The requests that stand in every history of an accepted Task.
pub record IsVerified (requests : List (Request TaskStatus)) : Type 0 where
  pub assigned : Memᴰ (TaskStatus.assigned, role ActorRole.coordinator) requests
  pub submitted : Memᴰ (TaskStatus.submitted, role ActorRole.worker) requests
  pub routed : Memᴰ (TaskStatus.in_review, system SystemActor.os) requests
  pub approved : Memᴰ (TaskStatus.in_qa, role ActorRole.reviewer) requests
  pub accepted : Memᴰ (TaskStatus.accepted, role ActorRole.qa) requests

-- A Task that was walked from CREATED to ACCEPTED, by any requests whatever, was assigned at the
-- request of a Coordinator, submitted by a Worker, routed to review by the OS, sent to QA by a
-- Reviewer and accepted by QA.
pub accepted-IsVerified :
    (requests : List (Request TaskStatus))
    → walk task_state_machine TaskStatus.created requests ≡ some TaskStatus.accepted
    → IsVerified requests
unfolding all any
accepted-IsVerified requests h = record {
  assigned =
      walk_gate task_state_machine
        (λ s.
          not (
            among (TaskStatus.created ∷ TaskStatus.pending_dependencies ∷ TaskStatus.ready ∷ []) s))
        _ TaskStatus.created requests refl refl refl h;
  submitted =
      walk_gate task_state_machine
        (among (
          TaskStatus.submitted ∷ TaskStatus.in_review ∷ TaskStatus.in_qa ∷ TaskStatus.accepted
          ∷ []))
        _ TaskStatus.created requests refl refl refl h;
  routed =
      walk_gate task_state_machine
        (among (TaskStatus.in_review ∷ TaskStatus.in_qa ∷ TaskStatus.accepted ∷ [])) _
        TaskStatus.created requests refl refl refl h;
  approved =
      walk_gate task_state_machine (among (TaskStatus.in_qa ∷ TaskStatus.accepted ∷ [])) _
        TaskStatus.created requests refl refl refl h;
  accepted =
      walk_gate task_state_machine (among (TaskStatus.accepted ∷ [])) _ TaskStatus.created requests
        refl refl refl h;
}
