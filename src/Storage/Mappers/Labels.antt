-- ===== src/Storage/Mappers/Labels.antt =====
-- storage/mappers: the labels of the enumerations of domain are read back as their members.
use ai_engineering_os.Base.{any, no_duplicates, ok, refl, ◌≡◌}
use ai_engineering_os.Storage.Mappers.{read_member, value_of}
use ai_engineering_os.Domain.Enums.{
  ActorRole, CapabilityType, DecisionScope, DefectStatus, EvidenceSourceType, EvidenceType,
  FeatureStatus, Initiator, PlanStatus, QaStatus, ReviewOutcome, TaskStatus, WorkPackageStatus,
  actor_role_enum, capability_type_enum, decision_scope_enum, defect_status_enum,
  evidence_source_type_enum, evidence_type_enum, feature_status_enum, initiator_enum,
  plan_status_enum, qa_status_enum, review_outcome_enum, task_status_enum, work_package_status_enum,
}
use ai_engineering_os.Storage.Mappers.Reading.{read_member-value}
use ai_engineering_os.Domain.Event.{
  EventType, TransitionOutcome, event_type_enum, transition_outcome_enum,
}

pub read_capability_type : (a : CapabilityType) → read_member (value_of a) ≡ ok a
unfolding no_duplicates any
read_capability_type a = read_member-value refl a

pub read_task_status : (a : TaskStatus) → read_member (value_of a) ≡ ok a
unfolding no_duplicates any
read_task_status a = read_member-value refl a

pub read_feature_status : (a : FeatureStatus) → read_member (value_of a) ≡ ok a
unfolding no_duplicates any
read_feature_status a = read_member-value refl a

pub read_plan_status : (a : PlanStatus) → read_member (value_of a) ≡ ok a
unfolding no_duplicates any
read_plan_status a = read_member-value refl a

pub read_work_package_status : (a : WorkPackageStatus) → read_member (value_of a) ≡ ok a
unfolding no_duplicates any
read_work_package_status a = read_member-value refl a

pub read_evidence_source_type : (a : EvidenceSourceType) → read_member (value_of a) ≡ ok a
unfolding no_duplicates any
read_evidence_source_type a = read_member-value refl a

pub read_evidence_type : (a : EvidenceType) → read_member (value_of a) ≡ ok a
unfolding no_duplicates any
read_evidence_type a = read_member-value refl a

pub read_qa_status : (a : QaStatus) → read_member (value_of a) ≡ ok a
unfolding no_duplicates any
read_qa_status a = read_member-value refl a

pub read_defect_status : (a : DefectStatus) → read_member (value_of a) ≡ ok a
unfolding no_duplicates any
read_defect_status a = read_member-value refl a

pub read_decision_scope : (a : DecisionScope) → read_member (value_of a) ≡ ok a
unfolding no_duplicates any
read_decision_scope a = read_member-value refl a

pub read_actor_role : (a : ActorRole) → read_member (value_of a) ≡ ok a
unfolding no_duplicates any
read_actor_role a = read_member-value refl a

pub read_review_outcome : (a : ReviewOutcome) → read_member (value_of a) ≡ ok a
unfolding no_duplicates any
read_review_outcome a = read_member-value refl a

pub read_event_type : (a : EventType) → read_member (value_of a) ≡ ok a
unfolding no_duplicates any
read_event_type a = read_member-value refl a

pub read_initiator : (a : Initiator) → read_member (value_of a) ≡ ok a
unfolding no_duplicates any
read_initiator a = read_member-value refl a

pub read_transition_outcome : (a : TransitionOutcome) → read_member (value_of a) ≡ ok a
unfolding no_duplicates any
read_transition_outcome a = read_member-value refl a
