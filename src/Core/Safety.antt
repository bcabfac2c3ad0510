-- ===== src/Core/Safety.antt =====
-- A call of core/runner.py or core/kernel.py that raises has committed and announced nothing.
use ai_engineering_os.Storage.Session.Calls.{at_database-holds}
use ai_engineering_os.Storage.Session.{Action, commit, done, ◌>>=◌, ◌>>◌}
use ai_engineering_os.Storage.Closed.{CallLaws, Keeps-CallLaws}
use ai_engineering_os.Storage.Keeps.{IsKept, Keeps, RaisesClean, chain-RaisesClean, lift-Keeps}
use ai_engineering_os.Base.{
  Bool, List, Option, StrEnum, [], and_then, err, false, ok, refl, true, ◌++◌, ◌≡◌,
}
use ai_engineering_os.Domain.Enums.{
  actor_role_enum, capability_type_enum, decision_scope_enum, defect_status_enum,
  evidence_source_type_enum, evidence_type_enum, feature_status_enum, initiator_enum,
  plan_status_enum, qa_status_enum, review_outcome_enum, task_status_enum, work_package_status_enum,
}
use ai_engineering_os.Domain.Event.{
  EventType, Payload, Reason, TransitionOutcome, event_type_enum, transition_outcome_enum,
}
use ai_engineering_os.State.Machine.{TransitionEvaluation}
use ai_engineering_os.Rules.Results.{RuleEvaluation}
use ai_engineering_os.Core.Runner.{
  TransitionRequest, allow, append_audit, append_event, conclude, evaluated, is_refused, publish,
  refuse, run, settle,
}

commit_then-RaisesClean : {Value : Type 0} (value : Value) → RaisesClean (commit >> done value)
unfolding ◌>>=◌ commit
commit_then-RaisesClean value = record {
  clean = λ s e h.
      at_database-holds publish_staged
        (λ p. (and_then p (λ _. done value)).0 ≡ err e → IsKept s (and_then p (λ _. done value)).1)
        s (λ _. record { durable = refl; delivered = refl }) (λ k. cc) h;
}
  where
    publish_staged : Action (Unit {0})
    publish_staged t =
        (ok tt, record t { durable = t.pending; queued = []; delivered = t.delivered ++ t.queued })

module _ (P : (Value : Type 0) → Action Value → Type 0) (laws : CallLaws P) {S : Type 0}
    ⦃e : StrEnum S⦄ where
  pub append_audit-holds :
      (request : TransitionRequest S) (outcome : TransitionOutcome) (reasons : List Reason)
      → P _ (append_audit request outcome reasons)
  unfolding append_audit
  append_audit-holds request outcome reasons = laws.chain laws.draws_id (λ id.
      laws.chain laws.draws_time (λ at. laws.chain (laws.lifts _) (λ audit. laws.adds_audit audit)))

  pub append_event-holds :
      (request : TransitionRequest S) (event_type : EventType) (detail : Payload)
      → P _ (append_event request event_type detail)
  unfolding append_event publish
  append_event-holds request event_type detail = laws.chain laws.draws_id (λ id.
      laws.chain laws.draws_time (λ at. laws.chain (laws.lifts _) (λ event.
        laws.chain (laws.adds_event event)
          (λ recorded. laws.chain (laws.emits recorded) (λ _. laws.returns recorded)))))

module _ {S : Type 0} ⦃e : StrEnum S⦄ where
  pub append_audit-Keeps :
      (request : TransitionRequest S) (outcome : TransitionOutcome) (reasons : List Reason)
      → Keeps (append_audit request outcome reasons)
  append_audit-Keeps request outcome reasons =
      append_audit-holds (λ _ call. Keeps call) Keeps-CallLaws request outcome reasons

  pub append_event-Keeps :
      (request : TransitionRequest S) (event_type : EventType) (detail : Payload)
      → Keeps (append_event request event_type detail)
  append_event-Keeps request event_type detail =
      append_event-holds (λ _ call. Keeps call) Keeps-CallLaws request event_type detail

  conclude-RaisesClean :
      (request : TransitionRequest S) (outcome : TransitionOutcome) (reasons : List Reason)
      (event_type : EventType) (detail : Payload) (transition : TransitionEvaluation S)
      (rules : Option RuleEvaluation)
      → RaisesClean (conclude request outcome reasons event_type detail transition rules)
  unfolding conclude
  conclude-RaisesClean request outcome reasons event_type detail transition rules =
      chain-RaisesClean (append_audit-Keeps request outcome reasons) (λ audit.
        chain-RaisesClean (append_event-Keeps request event_type detail)
          (λ event. commit_then-RaisesClean _))

  -- When the mutation of the request commits nothing by itself, a run that raises, at whatever point,
  -- has committed and announced nothing.
  pub run-RaisesClean :
      (request : TransitionRequest S) → Keeps request.apply → RaisesClean (run request)
  unfolding run settle refuse allow
  run-RaisesClean request k =
      chain-RaisesClean (lift-Keeps (evaluated request))
        (λ (transition, rules). by_verdict (is_refused transition rules) transition rules)
    where
      by_verdict :
          (refused : Bool) (transition : TransitionEvaluation S) (rules : Option RuleEvaluation)
          → RaisesClean (settle request refused transition rules)
      by_verdict true transition rules = conclude-RaisesClean request _ _ _ _ transition rules
      by_verdict false transition rules =
          chain-RaisesClean k (λ _. conclude-RaisesClean request _ _ _ _ transition rules)
