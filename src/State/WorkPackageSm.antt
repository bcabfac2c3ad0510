-- ===== src/State/WorkPackageSm.antt =====
-- state/work_package_sm.py: the Work Package lifecycle.
pub mod Authority
use ai_engineering_os.Base.{◌≡◌, refl, List, [], ◌∷◌, ok}
use ai_engineering_os.Domain.Enums.{
  WorkPackageStatus, ActorRole, role, SystemActor, system, work_package_status_enum,
}
use ai_engineering_os.State.Machine.{TransitionDefinition, StateMachine, state_machine}

abbrev work_package_transitions : List (TransitionDefinition WorkPackageStatus)
work_package_transitions =
    record {
      from_state = WorkPackageStatus.draft;
      to_state = WorkPackageStatus.submitted;
      allowed_initiators = role ActorRole.worker ∷ [];
      required_conditions = [];
    }
    ∷ record {
      from_state = WorkPackageStatus.submitted;
      to_state = WorkPackageStatus.validated;
      allowed_initiators = system SystemActor.os ∷ [];
      required_conditions = [];
    }
    ∷ record {
      from_state = WorkPackageStatus.validated;
      to_state = WorkPackageStatus.reviewed;
      allowed_initiators = system SystemActor.os ∷ [];
      required_conditions = [];
    }
    ∷ record {
      from_state = WorkPackageStatus.reviewed;
      to_state = WorkPackageStatus.accepted;
      allowed_initiators = system SystemActor.os ∷ [];
      required_conditions = [];
    }
    ∷ record {
      from_state = WorkPackageStatus.reviewed;
      to_state = WorkPackageStatus.rejected;
      allowed_initiators = system SystemActor.os ∷ [];
      required_conditions = [];
    }
    ∷ []

abbrev pub work_package_state_machine : StateMachine WorkPackageStatus
work_package_state_machine = record {
  entity = "WorkPackage";
  initial_state = WorkPackageStatus.draft;
  transitions = work_package_transitions;
}

-- The declaration passes the checks of the constructor, at import time.
pub work_package_state_machine_lem :
    state_machine "WorkPackage" WorkPackageStatus.draft work_package_transitions
    ≡ ok work_package_state_machine
unfolding state_machine
work_package_state_machine_lem = refl
