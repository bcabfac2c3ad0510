-- ===== src/Core/Durable.antt =====
-- core/runner.py: a refusal is made durable, it does not raise.
use ai_engineering_os.Storage.Session.{
  NotificationEnvelope, Session, at_database, commit, emit, emit_for_event, for_event, new_id,
  next_sequence_number, notify_payload_limit_bytes, applied, utc_now, write, ◌>>=◌,
}
use ai_engineering_os.Storage.Writes.{
  add_audit, add_event, added_audit, added_event, insert_row, is_recorded, refers,
}
use ai_engineering_os.Base.{
  List, Option, StrEnum, [], false, is_empty, is_ok, ltb, ok, refl, some, true, ◌++◌, ◌+◌, ◌∷◌, ◌≡◌,
}
use ai_engineering_os.Domain.Actor.{Actor}
use ai_engineering_os.Domain.Event.{
  EventType, OsEvent, Payload, Reason, TransitionAuditRecord, TransitionOutcome,
  attribution_is_valid, refusal_records_why, validated_audit, validated_event, event_type_enum,
  transition_outcome_enum,
}
use ai_engineering_os.Domain.Enums.{
  actor_role_enum, capability_type_enum, decision_scope_enum, defect_status_enum,
  evidence_source_type_enum, evidence_type_enum, feature_status_enum, initiator_enum,
  plan_status_enum, qa_status_enum, review_outcome_enum, task_status_enum, work_package_status_enum,
}
use ai_engineering_os.State.Machine.{TransitionEvaluation}
use ai_engineering_os.Rules.Results.{RuleEvaluation}
use ai_engineering_os.Core.Runner.{
  TransitionRequest, append_audit, append_event, conclude, evaluated, event_payload, is_refused,
  publish, reasons_of, refusal_detail, refuse, run, settle,
}
use ai_engineering_os.Core.Reasons.{reasons_of-nonempty}

module _ {S : Type 0} ⦃e : StrEnum S⦄ (request : TransitionRequest S) (s : Session) where
  -- The requester can be attributed: an Actor that is recorded, or the OS without one.
  pub record IsAttributable : Type 0 where
    pub shape : attribution_is_valid request.initiator request.initiator_id ≡ true
    pub known : refers (λ (a : Actor). a.id) s.pending.actors request.initiator_id ≡ true

  -- The notification of the event that the run appends.
  abbrev pub wake_up : NotificationEnvelope
  wake_up = record {
    event_id = s.outside.uuid (s.draws + 1 + 1 + 1);
    aggregate_type = request.entity_type;
    aggregate_id = request.entity_id;
  }

  -- The two identifiers that `uuid4` draws for the records are new, the notification of the event is
  -- small enough for PostgreSQL, and the database answers the four calls of a refusal.
  pub record IsReady : Type 0 where
    pub audit_id :
        is_recorded
          (λ (r : TransitionAuditRecord). r.id)
          s.pending.transition_audit
          (s.outside.uuid s.draws)
        ≡ false
    pub event_id :
        is_recorded (λ (r : OsEvent). r.id) s.pending.events (s.outside.uuid (s.draws + 1 + 1 + 1))
        ≡ false
    pub small : ltb notify_payload_limit_bytes (s.outside.payload_bytes wake_up) ≡ false
    pub records_audit : s.outside.answers s.calls ≡ true
    pub records_event : s.outside.answers (s.calls + 1) ≡ true
    pub notifies : s.outside.answers (s.calls + 1 + 1) ≡ true
    pub commits : s.outside.answers (s.calls + 1 + 1 + 1) ≡ true

  audit_returned :
      (reasons : List Reason)
      → is_empty reasons ≡ false
      → IsAttributable
      → IsReady
      → (audit : TransitionAuditRecord) × (append_audit request TransitionOutcome.rejected reasons s
          ≡ (
            ok audit,
            record s {
              draws = s.draws + 1 + 1 + 1;
              calls = s.calls + 1;
              pending = record s.pending {
                transition_audit = s.pending.transition_audit ++ audit ∷ [];
              };
            },
          ))
  unfolding append_audit ◌>>=◌ add_audit new_id utc_now next_sequence_number write applied
      at_database added_audit insert_row validated_audit refusal_records_why
  audit_returned reasons why who ready =
      (audit, rw (who.shape, why, ready.records_audit, who.known, ready.audit_id) refl)
    where
      audit : TransitionAuditRecord
      audit = record {
        sequence_number = some (s.outside.identity (s.draws + 1 + 1));
        id = s.outside.uuid s.draws;
        entity_type = request.entity_type;
        entity_id = request.entity_id;
        from_state = e.label request.from_state;
        attempted_state = e.label request.to_state;
        outcome = TransitionOutcome.rejected;
        requested_by = request.initiator_id;
        requested_by_role = request.initiator;
        reasons = reasons;
        occurred_at = s.outside.clock (s.draws + 1);
      }

  event_returned :
      (event_type : EventType) (detail : Payload) (records : List TransitionAuditRecord)
      → IsAttributable
      → IsReady
      → (event : OsEvent) × (t : Session) × (append_event request event_type detail (record s {
        draws = s.draws + 1 + 1 + 1;
        calls = s.calls + 1;
        pending = record s.pending { transition_audit = records };
      })
          ≡ (ok event, t))
        × (t.outside ≡ s.outside)
        × (t.calls ≡ s.calls + 1 + 1 + 1)
  unfolding append_event ◌>>=◌ publish add_event new_id utc_now next_sequence_number write applied
      at_database added_event insert_row validated_event emit_for_event emit for_event
  event_returned event_type detail records who ready = (
    event,
    after,
    rw (who.shape, ready.records_event, who.known, ready.event_id, ready.small, ready.notifies)
        refl,
    refl,
    refl,
  )
    where
      event : OsEvent
      event = record {
        sequence_number = some (s.outside.identity (s.draws + 1 + 1 + 1 + 1 + 1));
        id = s.outside.uuid (s.draws + 1 + 1 + 1);
        event_type = event_type;
        aggregate_type = request.entity_type;
        aggregate_id = request.entity_id;
        actor_id = request.initiator_id;
        actor_role = request.initiator;
        payload = event_payload request detail;
        occurred_at = s.outside.clock (s.draws + 1 + 1 + 1 + 1);
      }

      after : Session
      after = record s {
        draws = s.draws + 1 + 1 + 1 + 1 + 1 + 1;
        calls = s.calls + 1 + 1 + 1;
        pending = record s.pending {
          transition_audit = records;
          events = s.pending.events ++ event ∷ [];
        };
        queued = s.queued ++ wake_up ∷ [];
      }

  -- Rejected means recorded, not raised: when the state machine or a rule refuses, the requester can be
  -- attributed, the two drawn identifiers are new, the notification of the event is small enough and
  -- the database answers the two inserts, the notification and the commit, then the run returns a
  -- result.
  pub refusal-returned :
      (transition : TransitionEvaluation S) (rules : Option RuleEvaluation)
      → evaluated request ≡ ok (transition, rules)
      → is_refused transition rules ≡ true
      → IsAttributable
      → IsReady
      → is_ok (run request s).0 ≡ true
  unfolding run ◌>>=◌ settle refuse conclude commit at_database
  refusal-returned transition rules h refused who ready =
      let why = reasons_of-nonempty request transition rules h refused in
      let (audit, first) = audit_returned (reasons_of transition rules) why who ready in
      let (event, t, second, outside, calls) =
        event_returned EventType.state_transition_rejected
          (refusal_detail (reasons_of transition rules)) (s.pending.transition_audit ++ audit ∷ [])
          who ready in
      rw (h, refused, first, second, outside, calls, ready.commits) refl
