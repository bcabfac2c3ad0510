-- ===== src/State/FeatureSm.antt =====
-- state/feature_sm.py: the Feature lifecycle.
pub mod Walks
use ai_engineering_os.Base.{◌≡◌, refl, List, [], ◌∷◌, ok}
use ai_engineering_os.Domain.Enums.{
  FeatureStatus, ActorRole, role, SystemActor, system, feature_status_enum,
}
use ai_engineering_os.Domain.Conditions.{TransitionCondition}
use ai_engineering_os.State.Machine.{TransitionDefinition, StateMachine, state_machine}

abbrev feature_transitions : List (TransitionDefinition FeatureStatus)
feature_transitions =
    record {
      from_state = FeatureStatus.draft;
      to_state = FeatureStatus.planned;
      allowed_initiators = role ActorRole.coordinator ∷ [];
      required_conditions =
          TransitionCondition.feature_plan_attached ∷ TransitionCondition.plan_has_task_definitions
          ∷ [];
    }
    ∷ record {
      from_state = FeatureStatus.planned;
      to_state = FeatureStatus.in_progress;
      allowed_initiators = role ActorRole.coordinator ∷ [];
      required_conditions =
          TransitionCondition.plan_is_ready ∷ TransitionCondition.tasks_instantiated
          ∷ TransitionCondition.plan_dependencies_valid ∷ [];
    }
    ∷ record {
      from_state = FeatureStatus.in_progress;
      to_state = FeatureStatus.in_validation;
      allowed_initiators = role ActorRole.coordinator ∷ system SystemActor.os ∷ [];
      required_conditions = TransitionCondition.all_implementation_tasks_accepted ∷ [];
    }
    ∷ record {
      from_state = FeatureStatus.in_validation;
      to_state = FeatureStatus.in_progress;
      allowed_initiators = role ActorRole.coordinator ∷ role ActorRole.qa ∷ [];
      required_conditions = TransitionCondition.qa_defect_findings_recorded ∷ [];
    }
    ∷ record {
      from_state = FeatureStatus.in_validation;
      to_state = FeatureStatus.accepted;
      allowed_initiators = role ActorRole.coordinator ∷ [];
      required_conditions =
          TransitionCondition.all_tasks_accepted ∷ TransitionCondition.qa_final_pass_recorded
          ∷ TransitionCondition.zero_unresolved_in_scope_defects
          ∷ TransitionCondition.mandatory_evidence_present ∷ [];
    }
    ∷ []

abbrev pub feature_state_machine : StateMachine FeatureStatus
feature_state_machine = record {
  entity = "Feature";
  initial_state = FeatureStatus.draft;
  transitions = feature_transitions;
}

-- The declaration passes the checks of the constructor, at import time.
pub feature_state_machine_lem :
    state_machine "Feature" FeatureStatus.draft feature_transitions ≡ ok feature_state_machine
unfolding state_machine
feature_state_machine_lem = refl
