-- ===== src/Storage/Mappers/Event.antt =====
-- storage/models/event.py and storage/mappers/event.py. A payload and the reasons are kept as they
-- are encoded.
use ai_engineering_os.Base.{Bool, List, Option, Result, String, none, ℕ, ◌&&◌, ◌>>=◌}
use ai_engineering_os.Storage.Mappers.{read_member, reconstruct, value_of}
use ai_engineering_os.Domain.Enums.{
  actor_role_enum, capability_type_enum, decision_scope_enum, defect_status_enum,
  evidence_source_type_enum, evidence_type_enum, feature_status_enum, initiator_enum,
  plan_status_enum, qa_status_enum, review_outcome_enum, task_status_enum, work_package_status_enum,
}
use ai_engineering_os.Domain.Event.{
  OsEvent, Payload, Reason, TransitionAuditRecord, attribution_is_valid, refusal_records_why,
  event_type_enum, transition_outcome_enum,
}

-- `sequence_number` is `none` in a row that is not inserted yet: no mapper writes it.
pub record OsEventRow : Type 0 where
  pub sequence_number : Option ℕ
  pub id : ℕ
  pub event_type : String
  pub aggregate_type : String
  pub aggregate_id : ℕ
  pub actor_id : Option ℕ
  pub actor_role : String
  pub payload : Payload
  pub occurred_at : ℕ

unfoldable pub to_event_row : OsEvent → OsEventRow
to_event_row event = record {
  id = event.id;
  sequence_number = none;
  event_type = value_of event.event_type;
  aggregate_type = event.aggregate_type;
  aggregate_id = event.aggregate_id;
  actor_id = event.actor_id;
  actor_role = value_of event.actor_role;
  payload = event.payload;
  occurred_at = event.occurred_at;
}

abbrev event_is_valid : OsEvent → Bool
event_is_valid event = attribution_is_valid event.actor_role event.actor_id

unfoldable pub to_domain_event : OsEventRow → Result OsEvent
to_domain_event row = do
  event_type ← read_member row.event_type
  actor_role ← read_member row.actor_role
  reconstruct event_is_valid (record {
    sequence_number = row.sequence_number;
    id = row.id;
    event_type = event_type;
    aggregate_type = row.aggregate_type;
    aggregate_id = row.aggregate_id;
    actor_id = row.actor_id;
    actor_role = actor_role;
    payload = row.payload;
    occurred_at = row.occurred_at;
  })

pub record StateTransitionAuditRow : Type 0 where
  pub sequence_number : Option ℕ
  pub id : ℕ
  pub entity_type : String
  pub entity_id : ℕ
  pub from_state : String
  pub attempted_state : String
  pub outcome : String
  pub requested_by : Option ℕ
  pub requested_by_role : String
  pub reasons : List Reason
  pub occurred_at : ℕ

unfoldable pub to_transition_audit_row : TransitionAuditRecord → StateTransitionAuditRow
to_transition_audit_row transition_audit = record {
  id = transition_audit.id;
  sequence_number = none;
  entity_type = transition_audit.entity_type;
  entity_id = transition_audit.entity_id;
  from_state = transition_audit.from_state;
  attempted_state = transition_audit.attempted_state;
  outcome = value_of transition_audit.outcome;
  requested_by = transition_audit.requested_by;
  requested_by_role = value_of transition_audit.requested_by_role;
  reasons = transition_audit.reasons;
  occurred_at = transition_audit.occurred_at;
}

abbrev audit_is_valid : TransitionAuditRecord → Bool
audit_is_valid audit =
    attribution_is_valid audit.requested_by_role audit.requested_by
    && refusal_records_why audit.outcome audit.reasons

unfoldable pub to_domain_transition_audit : StateTransitionAuditRow → Result TransitionAuditRecord
to_domain_transition_audit row = do
  outcome ← read_member row.outcome
  requested_by_role ← read_member row.requested_by_role
  reconstruct audit_is_valid (record {
    sequence_number = row.sequence_number;
    id = row.id;
    entity_type = row.entity_type;
    entity_id = row.entity_id;
    from_state = row.from_state;
    attempted_state = row.attempted_state;
    outcome = outcome;
    requested_by = row.requested_by;
    requested_by_role = requested_by_role;
    reasons = row.reasons;
    occurred_at = row.occurred_at;
  })
