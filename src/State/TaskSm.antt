-- ===== src/State/TaskSm.antt =====
-- state/task_sm.py: the Task lifecycle.
pub mod Walks
use ai_engineering_os.Base.{◌≡◌, refl, List, [], ◌∷◌, ok}
use ai_engineering_os.Domain.Enums.{
  TaskStatus, ActorRole, role, SystemActor, system, task_status_enum,
}
use ai_engineering_os.Domain.Conditions.{TransitionCondition}
use ai_engineering_os.State.Machine.{TransitionDefinition, StateMachine, state_machine}

abbrev pub task_transitions : List (TransitionDefinition TaskStatus)
task_transitions =
    record {
      from_state = TaskStatus.created;
      to_state = TaskStatus.pending_dependencies;
      allowed_initiators = system SystemActor.os ∷ [];
      required_conditions = TransitionCondition.task_has_dependencies ∷ [];
    }
    ∷ record {
      from_state = TaskStatus.created;
      to_state = TaskStatus.ready;
      allowed_initiators = system SystemActor.os ∷ [];
      required_conditions =
          TransitionCondition.dependencies_accepted ∷ TransitionCondition.originating_plan_active
          ∷ [];
    }
    ∷ record {
      from_state = TaskStatus.pending_dependencies;
      to_state = TaskStatus.ready;
      allowed_initiators = system SystemActor.os ∷ [];
      required_conditions =
          TransitionCondition.dependencies_accepted ∷ TransitionCondition.originating_plan_active
          ∷ [];
    }
    ∷ record {
      from_state = TaskStatus.ready;
      to_state = TaskStatus.assigned;
      allowed_initiators = role ActorRole.coordinator ∷ [];
      required_conditions =
          TransitionCondition.worker_is_active ∷ TransitionCondition.worker_capability_matches ∷ [];
    }
    ∷ record {
      from_state = TaskStatus.assigned;
      to_state = TaskStatus.in_progress;
      allowed_initiators = role ActorRole.worker ∷ [];
      required_conditions = TransitionCondition.requester_is_assigned_worker ∷ [];
    }
    ∷ record {
      from_state = TaskStatus.in_progress;
      to_state = TaskStatus.submitted;
      allowed_initiators = role ActorRole.worker ∷ [];
      required_conditions =
          TransitionCondition.work_package_present ∷ TransitionCondition.claims_defined
          ∷ TransitionCondition.mandatory_system_evidence_attached
          ∷ TransitionCondition.verification_guide_present ∷ [];
    }
    ∷ record {
      from_state = TaskStatus.submitted;
      to_state = TaskStatus.in_review;
      allowed_initiators = system SystemActor.os ∷ [];
      required_conditions = TransitionCondition.reviewer_assigned ∷ [];
    }
    ∷ record {
      from_state = TaskStatus.in_review;
      to_state = TaskStatus.in_qa;
      allowed_initiators = role ActorRole.reviewer ∷ [];
      required_conditions =
          TransitionCondition.review_decision_approved ∷ TransitionCondition.review_notes_present
          ∷ [];
    }
    ∷ record {
      from_state = TaskStatus.in_review;
      to_state = TaskStatus.revision_required;
      allowed_initiators = role ActorRole.reviewer ∷ [];
      required_conditions =
          TransitionCondition.review_decision_changes_requested
          ∷ TransitionCondition.review_feedback_present ∷ [];
    }
    ∷ record {
      from_state = TaskStatus.in_qa;
      to_state = TaskStatus.accepted;
      allowed_initiators = role ActorRole.qa ∷ [];
      required_conditions =
          TransitionCondition.qa_report_passed ∷ TransitionCondition.test_execution_evidence_present
          ∷ [];
    }
    ∷ record {
      from_state = TaskStatus.in_qa;
      to_state = TaskStatus.revision_required;
      allowed_initiators = role ActorRole.qa ∷ role ActorRole.coordinator ∷ [];
      required_conditions =
          TransitionCondition.qa_report_failed ∷ TransitionCondition.defects_documented ∷ [];
    }
    ∷ record {
      from_state = TaskStatus.revision_required;
      to_state = TaskStatus.in_progress;
      allowed_initiators = role ActorRole.worker ∷ [];
      required_conditions = TransitionCondition.incremented_revision_created ∷ [];
    }
    ∷ []

abbrev pub task_state_machine : StateMachine TaskStatus
task_state_machine = record {
  entity = "Task";
  initial_state = TaskStatus.created;
  transitions = task_transitions;
}

-- The declaration passes the checks of the constructor, at import time.
pub task_state_machine_lem :
    state_machine "Task" TaskStatus.created task_transitions ≡ ok task_state_machine
unfolding state_machine
task_state_machine_lem = refl
