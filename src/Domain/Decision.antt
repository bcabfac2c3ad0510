-- ===== src/Domain/Decision.antt =====
-- domain/decision.py
use ai_engineering_os.Base.{
  Bool, Error, List, Result, String, [], any, elem, err, false, if◌then◌else◌, map, no_duplicates,
  ok, true, ℕ, ◌&&◌, ◌++◌, ◌==◌, ◌∷◌,
}
use ai_engineering_os.Domain.Enums.{
  ActorRole, DecisionScope, ReviewOutcome, actor_role_enum, capability_type_enum,
  evidence_type_enum, feature_status_enum, initiator_enum, plan_status_enum, task_status_enum,
  work_package_status_enum,
}

-- `DECISION_AUTHORITY`
unfoldable pub decision_authority : DecisionScope → List ActorRole
decision_authority DecisionScope.feature =
    ActorRole.coordinator ∷ ActorRole.orchestrator ∷ ActorRole.builder ∷ []
decision_authority DecisionScope.system = ActorRole.orchestrator ∷ ActorRole.builder ∷ []
decision_authority DecisionScope.business = ActorRole.builder ∷ []

pub record DecisionAcknowledgement : Type 0 where
  pub actor_id : ℕ
  pub actor_role : ActorRole
  pub acknowledged_at : ℕ

pub record Decision : Type 0 where
  pub id : ℕ
  pub scope : DecisionScope
  pub decided_by_role : ActorRole
  pub decided_by_id : ℕ
  pub problem : String
  pub decision_text : String
  pub reasoning : String
  pub alternatives_considered : List String
  pub affected_domains : List String
  pub acknowledgements : List DecisionAcknowledgement
  pub created_at : ℕ

unfoldable pub is_valid_decision : Decision → Bool
unfolding any no_duplicates decision_authority
is_valid_decision decision =
    elem decision.decided_by_role (decision_authority decision.scope)
    && no_duplicates ◌==◌
        (map (λ (a : DecisionAcknowledgement). a.actor_id) decision.acknowledgements)

unfoldable pub is_acknowledged_by : Decision → ℕ → Bool
unfolding any
is_acknowledged_by decision actor_id = any (λ a. a.actor_id == actor_id) decision.acknowledgements

unfoldable pub acknowledge : Decision → ℕ → ActorRole → ℕ → Result Decision
unfolding is_acknowledged_by is_valid_decision
acknowledge decision actor_id actor_role at =
    let acknowledgement : DecisionAcknowledgement = record {
      actor_id = actor_id;
      actor_role = actor_role;
      acknowledged_at = at;
    } in
    let changed = record decision {
      acknowledgements = decision.acknowledgements ++ acknowledgement ∷ [];
    } in
    if is_acknowledged_by decision actor_id
    then err Error.invariant_violation
    else if is_valid_decision changed
    then ok changed
    else err Error.validation

pub record ReviewDecision : Type 0 where
  pub id : ℕ
  pub task_revision_id : ℕ
  pub reviewer_id : ℕ
  pub outcome : ReviewOutcome
  pub notes : String
  pub created_at : ℕ

abbrev pub is_approval : ReviewOutcome → Bool
is_approval ReviewOutcome.approved = true
is_approval ReviewOutcome.changes_requested = false

unfoldable pub is_approved : ReviewDecision → Bool
is_approved decision = is_approval decision.outcome
