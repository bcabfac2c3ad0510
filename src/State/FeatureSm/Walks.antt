-- ===== src/State/FeatureSm/Walks.antt =====
-- What every walk through the Feature lifecycle of state/feature_sm.py has to pass.
use ai_engineering_os.Base.{Bool, List, Memᴰ, [], all, any, elem, not, refl, some, ◌∷◌, ◌≡◌}
use ai_engineering_os.Domain.Enums.{
  ActorRole, FeatureStatus, role, actor_role_enum, capability_type_enum, evidence_type_enum,
  feature_status_enum, initiator_enum, plan_status_enum, qa_status_enum, review_outcome_enum,
  task_status_enum, work_package_status_enum,
}
use ai_engineering_os.State.FeatureSm.{feature_state_machine}
use ai_engineering_os.State.Walk.{Request, walk, walk_gate}

abbrev among : List FeatureStatus → FeatureStatus → Bool
among states s = elem s states

-- The requests that stand in every history of an accepted Feature.
pub record IsDelivered (requests : List (Request FeatureStatus)) : Type 0 where
  pub planned : Memᴰ (FeatureStatus.planned, role ActorRole.coordinator) requests
  pub started : Memᴰ (FeatureStatus.in_progress, role ActorRole.coordinator) requests
  pub accepted : Memᴰ (FeatureStatus.accepted, role ActorRole.coordinator) requests

-- A Feature that was walked from DRAFT to ACCEPTED, by any requests whatever, was planned, started and
-- accepted at the requests of a Coordinator.
pub accepted-IsDelivered :
    (requests : List (Request FeatureStatus))
    → walk feature_state_machine FeatureStatus.draft requests ≡ some FeatureStatus.accepted
    → IsDelivered requests
unfolding all any
accepted-IsDelivered requests h = record {
  planned =
      walk_gate feature_state_machine (λ s. not (among (FeatureStatus.draft ∷ []) s)) _
        FeatureStatus.draft requests refl refl refl h;
  started =
      walk_gate feature_state_machine
        (among
          (FeatureStatus.in_progress ∷ FeatureStatus.in_validation ∷ FeatureStatus.accepted ∷ []))
        _ FeatureStatus.draft requests refl refl refl h;
  accepted =
      walk_gate feature_state_machine (among (FeatureStatus.accepted ∷ [])) _ FeatureStatus.draft
        requests refl refl refl h;
}
