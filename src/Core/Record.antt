-- ===== src/Core/Record.antt =====
-- core/runner.py: what the two halves of a recorded outcome append, and what the records hold.
use ai_engineering_os.Storage.Keeps.{chain_elim}
use ai_engineering_os.Storage.Session.Calls.{emit_elim}
use ai_engineering_os.Storage.Session.{
  Session, done, emit_for_event, for_event, new_id, utc_now, ◌>>=◌,
}
use ai_engineering_os.Storage.Writes.{add_event}
use ai_engineering_os.Storage.Appends.{add_audit_elim, add_event_elim, result_cases}
use ai_engineering_os.Base.{
  List, Option, Result, StrEnum, [], and_then, ap, arith, err, inl, inr, none, ok, refl, some, sym,
  true, ℕ, ◌++◌, ◌+◌, ◌∙◌, ◌∷◌, ◌≡◌,
}
use ai_engineering_os.Domain.Event.{
  EventType, OsEvent, Payload, Reason, TransitionAuditRecord, TransitionOutcome,
  refusal_records_why, validated_audit, validated_event, event_type_enum, transition_outcome_enum,
}
use mathlib.Core.Path.{subst}
use ai_engineering_os.Core.Runner.{
  TransitionRequest, append_audit, append_event, event_payload, publish,
}

validated_audit_elim :
    (audit : TransitionAuditRecord) {v : TransitionAuditRecord}
    → validated_audit audit ≡ ok v
    → (audit ≡ v) × (refusal_records_why audit.outcome audit.reasons ≡ true)
unfolding validated_audit
validated_audit_elim audit h = ground arith

validated_event_elim : (event : OsEvent) {v : OsEvent} → validated_event event ≡ ok v → event ≡ v
unfolding validated_event
validated_event_elim event h = ground arith

-- A published event is appended, and its wake-up waits for the commit.
publish_elim :
    (event : OsEvent) (s : Session) {recorded : OsEvent}
    → (publish event s).0 ≡ ok recorded
    → ((publish event s).1.pending
        ≡ record s.pending { events = s.pending.events ++ recorded ∷ [] })
      × ((publish event s).1.queued ≡ s.queued ++ for_event recorded ∷ [])
      × ((n : Option ℕ) × (recorded ≡ record event { sequence_number = n }))
unfolding publish ◌>>=◌ emit_for_event
publish_elim event s {recorded} h = go (add_event event s) (λ r k. add_event_elim event s k) h
  where
    Fresh : OsEvent → Type 0
    Fresh r = (n : Option ℕ) × (r ≡ record event { sequence_number = n })

    go :
        (p : Result OsEvent × Session)
        → ((r : OsEvent)
            → p.0 ≡ ok r
            → (p.1.pending ≡ record s.pending { events = s.pending.events ++ r ∷ [] })
              × (p.1.queued ≡ s.queued)
              × (r ≡ record event { sequence_number = some (s.outside.identity s.draws) }))
        → (and_then p (λ r. emit_for_event r >>= λ _. done r)).0 ≡ ok recorded
        → ((and_then p (λ r. emit_for_event r >>= λ _. done r)).1.pending
            ≡ record s.pending { events = s.pending.events ++ recorded ∷ [] })
          × ((and_then p (λ r. emit_for_event r >>= λ _. done r)).1.queued
              ≡ s.queued ++ for_event recorded ∷ [])
          × Fresh recorded
    go (err e, t) facts k = cc
    go (ok r, t) facts k =
        let (u, sent, last, after) = chain_elim (emit_for_event r) (λ _. done r) t k in
        let same : r ≡ recorded = cc last in
        let woken = emit_elim (for_event r) t sent in
        let (p, q, f) = facts r refl in
        let moved =
          subst
            (λ x.
              (t.pending ≡ record s.pending { events = s.pending.events ++ x ∷ [] })
              × (t.queued ++ for_event r ∷ [] ≡ s.queued ++ for_event x ∷ [])
              × Fresh x)
            same (p, ap (λ z. z ++ for_event r ∷ []) q, (some (s.outside.identity s.draws), f)) in
        rw (after, woken) moved

module _ {S : Type 0} ⦃e : StrEnum S⦄ (request : TransitionRequest S) where
  -- The audit record of one attempt.
  pub record IsAuditOf (outcome : TransitionOutcome) (reasons : List Reason)
      (audit : TransitionAuditRecord) : Type 0 where
    pub entity_type : audit.entity_type ≡ request.entity_type
    pub entity_id : audit.entity_id ≡ request.entity_id
    pub from_state : audit.from_state ≡ e.label request.from_state
    pub attempted_state : audit.attempted_state ≡ e.label request.to_state
    pub outcome_is : audit.outcome ≡ outcome
    pub requested_by : audit.requested_by ≡ request.initiator_id
    pub requested_by_role : audit.requested_by_role ≡ request.initiator
    pub reasons_are : audit.reasons ≡ reasons
    pub says_why : refusal_records_why audit.outcome audit.reasons ≡ true

  pub append_audit_elim :
      (outcome : TransitionOutcome) (reasons : List Reason) (s : Session)
      {audit : TransitionAuditRecord}
      → (append_audit request outcome reasons s).0 ≡ ok audit
      → ((append_audit request outcome reasons s).1.pending
          ≡ record s.pending { transition_audit = s.pending.transition_audit ++ audit ∷ [] })
        × ((append_audit request outcome reasons s).1.queued ≡ s.queued)
        × IsAuditOf outcome reasons audit
  unfolding append_audit ◌>>=◌ new_id utc_now
  append_audit_elim outcome reasons s {audit} h = elim (result_cases (validated_audit draft)) [
    | inl (e, k) ↦ cc (rw k at h)
    | inr (v, k) ↦
        let (same_draft, why) = validated_audit_elim draft k in
        let later : Session = record s { draws = s.draws + 1 + 1 } in
        let (p, q, r) = add_audit_elim v later (rw k at h) in
        let back : audit
            ≡ record draft { sequence_number = some (s.outside.identity (s.draws + 1 + 1)) } =
          λ i.
            (r
                ∙ ap
                    (λ (a : TransitionAuditRecord). record a {
                      sequence_number = some (s.outside.identity (s.draws + 1 + 1));
                    })
                    (sym same_draft))
              i in
        rw k (p, q, facts back why)
  ]
    where
      draft : TransitionAuditRecord
      draft = record {
        sequence_number = none;
        id = s.outside.uuid s.draws;
        entity_type = request.entity_type;
        entity_id = request.entity_id;
        from_state = e.label request.from_state;
        attempted_state = e.label request.to_state;
        outcome = outcome;
        requested_by = request.initiator_id;
        requested_by_role = request.initiator;
        reasons = reasons;
        occurred_at = s.outside.clock (s.draws + 1);
      }

      facts :
          {n : Option ℕ}
          → audit ≡ record draft { sequence_number = n }
          → refusal_records_why outcome reasons ≡ true
          → IsAuditOf outcome reasons audit
      facts p why = rw p (record {
        entity_type = refl;
        entity_id = refl;
        from_state = refl;
        attempted_state = refl;
        outcome_is = refl;
        requested_by = refl;
        requested_by_role = refl;
        reasons_are = refl;
        says_why = why;
      })

  -- The event that announces one attempt.
  pub record IsEventOf (event_type : EventType) (detail : Payload) (event : OsEvent) : Type 0 where
    pub event_type_is : event.event_type ≡ event_type
    pub aggregate_type : event.aggregate_type ≡ request.entity_type
    pub aggregate_id : event.aggregate_id ≡ request.entity_id
    pub actor_id : event.actor_id ≡ request.initiator_id
    pub actor_role : event.actor_role ≡ request.initiator
    pub payload_is : event.payload ≡ event_payload request detail

  pub append_event_elim :
      (event_type : EventType) (detail : Payload) (s : Session) {event : OsEvent}
      → (append_event request event_type detail s).0 ≡ ok event
      → ((append_event request event_type detail s).1.pending
          ≡ record s.pending { events = s.pending.events ++ event ∷ [] })
        × ((append_event request event_type detail s).1.queued ≡ s.queued ++ for_event event ∷ [])
        × IsEventOf event_type detail event
  unfolding append_event ◌>>=◌ new_id utc_now
  append_event_elim event_type detail s {event} h = elim (result_cases (validated_event draft)) [
    | inl (e, k) ↦ cc (rw k at h)
    | inr (v, k) ↦
        let same_draft = validated_event_elim draft k in
        let later : Session = record s { draws = s.draws + 1 + 1 } in
        let (p, q, (n, r)) = publish_elim v later (rw k at h) in
        let back : event ≡ record draft { sequence_number = n } =
          λ i. (r ∙ ap (λ (a : OsEvent). record a { sequence_number = n }) (sym same_draft)) i in
        rw k (p, q, facts back)
  ]
    where
      draft : OsEvent
      draft = record {
        sequence_number = none;
        id = s.outside.uuid s.draws;
        event_type = event_type;
        aggregate_type = request.entity_type;
        aggregate_id = request.entity_id;
        actor_id = request.initiator_id;
        actor_role = request.initiator;
        payload = event_payload request detail;
        occurred_at = s.outside.clock (s.draws + 1);
      }

      facts :
          {n : Option ℕ}
          → event ≡ record draft { sequence_number = n }
          → IsEventOf event_type detail event
      facts p = rw p (record {
        event_type_is = refl;
        aggregate_type = refl;
        aggregate_id = refl;
        actor_id = refl;
        actor_role = refl;
        payload_is = refl;
      })
