-- ===== src/State/PlanSm.antt =====
-- state/plan_sm.py: the Feature Plan lifecycle.
use ai_engineering_os.Base.{◌≡◌, refl, List, [], ◌∷◌, ok}
use ai_engineering_os.Domain.Enums.{
  PlanStatus, ActorRole, role, SystemActor, system, plan_status_enum,
}
use ai_engineering_os.State.Machine.{TransitionDefinition, StateMachine, state_machine}

abbrev feature_plan_transitions : List (TransitionDefinition PlanStatus)
feature_plan_transitions =
    record {
      from_state = PlanStatus.draft;
      to_state = PlanStatus.ready;
      allowed_initiators = role ActorRole.coordinator ∷ [];
      required_conditions = [];
    }
    ∷ record {
      from_state = PlanStatus.ready;
      to_state = PlanStatus.active;
      allowed_initiators = role ActorRole.coordinator ∷ [];
      required_conditions = [];
    }
    ∷ record {
      from_state = PlanStatus.active;
      to_state = PlanStatus.completed;
      allowed_initiators = role ActorRole.coordinator ∷ system SystemActor.os ∷ [];
      required_conditions = [];
    }
    ∷ record {
      from_state = PlanStatus.active;
      to_state = PlanStatus.superseded;
      allowed_initiators = role ActorRole.coordinator ∷ [];
      required_conditions = [];
    }
    ∷ []

abbrev pub feature_plan_state_machine : StateMachine PlanStatus
feature_plan_state_machine = record {
  entity = "FeaturePlan";
  initial_state = PlanStatus.draft;
  transitions = feature_plan_transitions;
}

-- The declaration passes the checks of the constructor, at import time.
pub feature_plan_state_machine_lem :
    state_machine "FeaturePlan" PlanStatus.draft feature_plan_transitions
    ≡ ok feature_plan_state_machine
unfolding state_machine
feature_plan_state_machine_lem = refl
