-- ===== src/Domain/Event.antt =====
-- domain/event.py: the event stream and the enforcement ledger.
-- A `Mapping[str, Any]` is an association list; of the values that the code stores there, the texts
-- of messages are left out.
use ai_engineering_os.Base.{
  Bool, Error, List, Option, Result, StrEnum, String, [], err, false, get_elem?, if◌then◌else◌,
  is_empty, none, not, ok, refl, some, true, ℕ, ◌&&◌, ◌∷◌, ◌≡◌,
}
use ai_engineering_os.Domain.Enums.{
  Initiator, SystemActor, role, system, actor_role_enum, capability_type_enum, decision_scope_enum,
  defect_status_enum, evidence_source_type_enum, evidence_type_enum, feature_status_enum,
  initiator_enum, plan_status_enum, qa_status_enum, review_outcome_enum, task_status_enum,
  work_package_status_enum,
}

pub data EventType : Type 0 where
  feature_created feature_plan_created feature_plan_activated task_assigned : EventType
  task_started work_package_submitted evidence_attached state_transition_allowed : EventType
  state_transition_rejected review_completed qa_report_submitted feature_accepted : EventType
  escalation_raised : EventType

pub data TransitionOutcome : Type 0 where
  allowed rejected : TransitionOutcome

abbrev pub outcome_label : TransitionOutcome → String
outcome_label TransitionOutcome.allowed = "ALLOWED"
outcome_label TransitionOutcome.rejected = "REJECTED"

abbrev event_type_members : List EventType
event_type_members =
    EventType.feature_created ∷ EventType.feature_plan_created ∷ EventType.feature_plan_activated
    ∷ EventType.task_assigned ∷ EventType.task_started ∷ EventType.work_package_submitted
    ∷ EventType.evidence_attached ∷ EventType.state_transition_allowed
    ∷ EventType.state_transition_rejected ∷ EventType.review_completed
    ∷ EventType.qa_report_submitted ∷ EventType.feature_accepted ∷ EventType.escalation_raised ∷ []

abbrev event_type_index : EventType → ℕ
event_type_index EventType.feature_created = 0
event_type_index EventType.feature_plan_created = 1
event_type_index EventType.feature_plan_activated = 2
event_type_index EventType.task_assigned = 3
event_type_index EventType.task_started = 4
event_type_index EventType.work_package_submitted = 5
event_type_index EventType.evidence_attached = 6
event_type_index EventType.state_transition_allowed = 7
event_type_index EventType.state_transition_rejected = 8
event_type_index EventType.review_completed = 9
event_type_index EventType.qa_report_submitted = 10
event_type_index EventType.feature_accepted = 11
event_type_index EventType.escalation_raised = 12

abbrev event_type_label : EventType → String
event_type_label EventType.feature_created = "FeatureCreated"
event_type_label EventType.feature_plan_created = "FeaturePlanCreated"
event_type_label EventType.feature_plan_activated = "FeaturePlanActivated"
event_type_label EventType.task_assigned = "TaskAssigned"
event_type_label EventType.task_started = "TaskStarted"
event_type_label EventType.work_package_submitted = "WorkPackageSubmitted"
event_type_label EventType.evidence_attached = "EvidenceAttached"
event_type_label EventType.state_transition_allowed = "StateTransitionAllowed"
event_type_label EventType.state_transition_rejected = "StateTransitionRejected"
event_type_label EventType.review_completed = "ReviewCompleted"
event_type_label EventType.qa_report_submitted = "QAReportSubmitted"
event_type_label EventType.feature_accepted = "FeatureAccepted"
event_type_label EventType.escalation_raised = "EscalationRaised"

pub event_type_index_members :
    (a : EventType) → get_elem? event_type_members (event_type_index a) ≡ some a
event_type_index_members EventType.feature_created = refl
event_type_index_members EventType.feature_plan_created = refl
event_type_index_members EventType.feature_plan_activated = refl
event_type_index_members EventType.task_assigned = refl
event_type_index_members EventType.task_started = refl
event_type_index_members EventType.work_package_submitted = refl
event_type_index_members EventType.evidence_attached = refl
event_type_index_members EventType.state_transition_allowed = refl
event_type_index_members EventType.state_transition_rejected = refl
event_type_index_members EventType.review_completed = refl
event_type_index_members EventType.qa_report_submitted = refl
event_type_index_members EventType.feature_accepted = refl
event_type_index_members EventType.escalation_raised = refl

instance abbrev pub event_type_enum : StrEnum EventType
event_type_enum = record {
  members = event_type_members;
  index = event_type_index;
  label = event_type_label;
  index_members = event_type_index_members;
}

abbrev transition_outcome_members : List TransitionOutcome
transition_outcome_members = TransitionOutcome.allowed ∷ TransitionOutcome.rejected ∷ []

abbrev transition_outcome_index : TransitionOutcome → ℕ
transition_outcome_index TransitionOutcome.allowed = 0
transition_outcome_index TransitionOutcome.rejected = 1

pub transition_outcome_index_members :
    (a : TransitionOutcome)
    → get_elem? transition_outcome_members (transition_outcome_index a) ≡ some a
transition_outcome_index_members TransitionOutcome.allowed = refl
transition_outcome_index_members TransitionOutcome.rejected = refl

instance abbrev pub transition_outcome_enum : StrEnum TransitionOutcome
transition_outcome_enum = record {
  members = transition_outcome_members;
  index = transition_outcome_index;
  label = outcome_label;
  index_members = transition_outcome_index_members;
}

-- One structured reason of a refusal: keys with labels, `none` for a null.
abbrev pub Reason : Type 0
Reason = List (String × Option String)

pub data PayloadValue : Type 0 where
  text : String → PayloadValue
  identifier : Option ℕ → PayloadValue
  number : ℕ → PayloadValue
  refusal_reasons : List Reason → PayloadValue

abbrev pub Payload : Type 0
Payload = List (String × PayloadValue)

-- `sequence_number` is `none` until the database has assigned it.
pub record OsEvent : Type 0 where
  pub sequence_number : Option ℕ
  pub id : ℕ
  pub event_type : EventType
  pub aggregate_type : String
  pub aggregate_id : ℕ
  pub actor_id : Option ℕ
  pub actor_role : Initiator
  pub payload : Payload
  pub occurred_at : ℕ

pub record TransitionAuditRecord : Type 0 where
  pub sequence_number : Option ℕ
  pub id : ℕ
  pub entity_type : String
  pub entity_id : ℕ
  pub from_state : String
  pub attempted_state : String
  pub outcome : TransitionOutcome
  pub requested_by : Option ℕ
  pub requested_by_role : Initiator
  pub reasons : List Reason
  pub occurred_at : ℕ

abbrev pub is_os : Initiator → Bool
is_os (role r) = false
is_os (system SystemActor.os) = true

-- `_os_is_the_only_actorless_initiator`: an Actor id is missing exactly when the OS acts.
unfoldable pub attribution_is_valid : Initiator → Option ℕ → Bool
attribution_is_valid initiator none = is_os initiator
attribution_is_valid initiator (some actor) = not (is_os initiator)

unfoldable pub validated_event : OsEvent → Result OsEvent
unfolding attribution_is_valid
validated_event event =
    if attribution_is_valid event.actor_role event.actor_id then ok event else err Error.validation

-- `_a_refusal_records_why`
unfoldable pub refusal_records_why : TransitionOutcome → List Reason → Bool
refusal_records_why TransitionOutcome.rejected reasons = not (is_empty reasons)
refusal_records_why TransitionOutcome.allowed reasons = is_empty reasons

unfoldable pub validated_audit : TransitionAuditRecord → Result TransitionAuditRecord
unfolding attribution_is_valid refusal_records_why
validated_audit audit =
    if attribution_is_valid audit.requested_by_role audit.requested_by
      && refusal_records_why audit.outcome audit.reasons
    then ok audit
    else err Error.validation
