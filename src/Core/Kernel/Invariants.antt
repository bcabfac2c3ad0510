-- ===== src/Core/Kernel/Invariants.antt =====
-- core/kernel.py: a property of the database that every write keeps outlives every operation.
use mathlib.Core.Path.{subst}
use ai_engineering_os.Storage.Session.Calls.{at_database-holds, counted}
use ai_engineering_os.Core.Kernel.Calls.{Call, perform, quietly}
use ai_engineering_os.Domain.Feature.{Feature}
use ai_engineering_os.Domain.Enums.{
  FeatureStatus, Initiator, TaskStatus, actor_role_enum, capability_type_enum, decision_scope_enum,
  defect_status_enum, evidence_source_type_enum, evidence_type_enum, feature_status_enum,
  initiator_enum, plan_status_enum, qa_status_enum, review_outcome_enum, task_status_enum,
  work_package_status_enum,
}
use ai_engineering_os.Domain.Qa.{QaReport}
use ai_engineering_os.Core.Kernel.{
  activate_plan, assign_task, record_qa_report, return_for_rework, route_for_review,
  transition_feature, transition_task,
}
use ai_engineering_os.Core.Requests.{
  activate_plan_request, feature_request, return_for_rework_request, transition_feature_request,
}
use ai_engineering_os.Core.Kernel.Mutating.{
  apply_activation-holds, apply_feature_status-holds, apply_rework-holds,
}
use ai_engineering_os.Core.Kernel.Asking.{
  assign_task_request-holds, feature_request-apply, route_for_review_request-holds,
  routed_task-holds, transition_task_request-holds,
}
use ai_engineering_os.Storage.Database.{Database, get_feature, get_plan}
use ai_engineering_os.Domain.Event.{
  EventType, Payload, Reason, TransitionOutcome, event_type_enum, transition_outcome_enum,
}
use ai_engineering_os.Rules.Results.{RuleEvaluation}
use ai_engineering_os.State.Machine.{TransitionEvaluation}
use ai_engineering_os.Core.Runner.{
  TransitionRequest, allow, conclude, evaluated, is_refused, refuse, run, settle,
}
use ai_engineering_os.Core.Safety.{append_audit-holds, append_event-holds}
use ai_engineering_os.Storage.Session.{Action, Session, read, ◌>>=◌}
use ai_engineering_os.Storage.Closed.{CallLaws}
use ai_engineering_os.Storage.Preserves.{
  Holds, IsInvariant, Preserves, Preserves-CallLaws, commit-Preserves,
}
use ai_engineering_os.Base.{
  Bool, List, Option, Result, StrEnum, and_then, bind_elim, err, false, ok, refl, true, ℕ, ◌≡◌,
}

module _ (J : Database → Type 0) (inv : IsInvariant J) where
  abbrev P : (Value : Type 0) → Action Value → Type 0
  P Value call = Preserves J call

  abbrev laws : CallLaws P
  laws = Preserves-CallLaws J inv

  conclude-Preserves :
      {S : Type 0} ⦃e : StrEnum S⦄
      → (request : TransitionRequest S) (outcome : TransitionOutcome) (reasons : List Reason)
        (event_type : EventType) (detail : Payload) (transition : TransitionEvaluation S)
        (rules : Option RuleEvaluation)
      → Preserves J (conclude request outcome reasons event_type detail transition rules)
  unfolding conclude
  conclude-Preserves request outcome reasons event_type detail transition rules =
      laws.chain (append_audit-holds P laws request outcome reasons) (λ audit.
        laws.chain (append_event-holds P laws request event_type detail)
          (λ event. laws.chain (commit-Preserves J) (λ _. laws.returns _)))

  run-Preserves :
      {S : Type 0} ⦃e : StrEnum S⦄
      → (request : TransitionRequest S) → Preserves J request.apply
      → Preserves J (run request)
  unfolding run settle refuse allow
  run-Preserves request k =
      laws.chain (laws.lifts (evaluated request))
        (λ (transition, rules). by_verdict (is_refused transition rules) transition rules)
    where
      by_verdict :
          (refused : Bool) (transition : TransitionEvaluation _) (rules : Option RuleEvaluation)
          → Preserves J (settle request refused transition rules)
      by_verdict true transition rules = conclude-Preserves request _ _ _ _ transition rules
      by_verdict false transition rules =
          laws.chain k (λ _. conclude-Preserves request _ _ _ _ transition rules)

  -- The continuation may know that the query returned.
  query-Preserves :
      {Value Next : Type 0} (query : Database → Result Value) (continue : Value → Action Next)
      → ((db : Database) (value : Value) → query db ≡ ok value → Preserves J (continue value))
      → Preserves J (read query >>= continue)
  unfolding ◌>>=◌
  query-Preserves {Value} query continue k = record {
    keeps = λ s h.
        at_database-holds (λ t. (query t.pending, t)) (λ p. Holds J (and_then p continue).1) s h
          (go s h (query s.pending) refl);
  }
    where
      go :
          (s : Session)
          → Holds J s
          → (r : Result Value) → query s.pending ≡ r
          → Holds J (and_then (query s.pending, counted s) continue).1
      go s h (err raised) e = rw e h
      go s h (ok value) e = rw e ((k s.pending value e).keeps (counted s) h)

  quietly-Preserves :
      {Value : Type 0} {call : Action Value} → Preserves J call → Preserves J (quietly call)
  unfolding quietly
  quietly-Preserves k = record { keeps = λ s h. k.keeps s h }

  feature_run-Preserves :
      (db : Database) (feature : Feature) (to_state : FeatureStatus) (initiator : Initiator)
      (actor_id initiator_id : Option ℕ) (event_type : EventType) (payload : Payload)
      (apply : Action (Unit {0})) (request : TransitionRequest FeatureStatus)
      → Preserves J apply
      → feature_request db feature to_state initiator actor_id initiator_id event_type payload apply
        ≡ ok request
      → Preserves J (run request)
  feature_run-Preserves db feature to_state initiator actor_id initiator_id event_type payload apply
        request k h =
      run-Preserves request (
        subst (λ a. Preserves J a)
          (feature_request-apply db feature to_state initiator actor_id initiator_id event_type
            payload apply h)
          k)

  transition_task-Preserves :
      (task_id : ℕ) (to_state : TaskStatus) (initiator : Initiator)
      (initiator_id candidate : Option ℕ)
      → Preserves J (transition_task task_id to_state initiator initiator_id candidate)
  unfolding transition_task
  transition_task-Preserves task_id to_state initiator initiator_id candidate =
      query-Preserves _ _ (λ db request h. run-Preserves request (
        transition_task_request-holds P laws db task_id to_state initiator initiator_id candidate
          h))

  assign_task-Preserves :
      (task_id worker_id coordinator_id : ℕ)
      → Preserves J (assign_task task_id worker_id coordinator_id)
  unfolding assign_task
  assign_task-Preserves task_id worker_id coordinator_id = query-Preserves _ _ (λ db request h.
      run-Preserves request
        (assign_task_request-holds P laws db task_id worker_id coordinator_id h))

  route_for_review-Preserves : (task_id : ℕ) → Preserves J (route_for_review task_id)
  unfolding route_for_review
  route_for_review-Preserves task_id = laws.chain (laws.reads _) (λ task.
      laws.chain (laws.reads _) (λ history. laws.chain (laws.reads _) (λ candidates.
        laws.chain (routed_task-holds P laws task _) (λ routed. query-Preserves _ _ (λ db request h.
          run-Preserves request
            (route_for_review_request-holds P laws db task routed candidates _ h))))))

  transition_feature-Preserves :
      (feature_id : ℕ) (to_state : FeatureStatus) (initiator : Initiator) (initiator_id : Option ℕ)
      → Preserves J (transition_feature feature_id to_state initiator initiator_id)
  unfolding transition_feature transition_feature_request
  transition_feature-Preserves feature_id to_state initiator initiator_id =
      query-Preserves _ _ (λ db request h.
        let (feature, _, h1) = bind_elim (get_feature db feature_id) _ h in
        feature_run-Preserves db feature _ _ _ _ _ _ _ request
          (apply_feature_status-holds P laws feature to_state) h1)

  return_for_rework-Preserves :
      (feature_id : ℕ) (initiator : Initiator) (initiator_id : ℕ)
      → Preserves J (return_for_rework feature_id initiator initiator_id)
  unfolding return_for_rework return_for_rework_request
  return_for_rework-Preserves feature_id initiator initiator_id =
      query-Preserves _ _ (λ db request h.
        let (feature, _, h1) = bind_elim (get_feature db feature_id) _ h in
        feature_run-Preserves db feature _ _ _ _ _ _ _ request (apply_rework-holds P laws feature)
          h1)

  activate_plan-Preserves :
      (plan_id coordinator_id : ℕ) → Preserves J (activate_plan plan_id coordinator_id)
  unfolding activate_plan activate_plan_request
  activate_plan-Preserves plan_id coordinator_id = query-Preserves _ _ (λ db request h.
      let (plan, _, h1) = bind_elim (get_plan db plan_id) _ h in
      let (feature, _, h2) = bind_elim (get_feature db plan.feature_id) _ h1 in
      feature_run-Preserves db feature _ _ _ _ _ _ _ request
        (apply_activation-holds P laws plan feature) h2)

  record_qa_report-Preserves : (report : QaReport) → Preserves J (record_qa_report report)
  unfolding record_qa_report
  record_qa_report-Preserves report =
      laws.chain (laws.reads _) (λ feature. laws.chain (laws.adds_report _) (λ _. laws.returns _))

  pub perform-Preserves : (c : Call) → Preserves J (perform c)
  unfolding perform
  perform-Preserves (Call.task_transition t to i a w) =
      quietly-Preserves (transition_task-Preserves t to i a w)
  perform-Preserves (Call.task_assignment t w c) = quietly-Preserves (assign_task-Preserves t w c)
  perform-Preserves (Call.review_routing t) = quietly-Preserves (route_for_review-Preserves t)
  perform-Preserves (Call.feature_transition f to i a) =
      quietly-Preserves (transition_feature-Preserves f to i a)
  perform-Preserves (Call.rework f i a) = quietly-Preserves (return_for_rework-Preserves f i a)
  perform-Preserves (Call.plan_activation p c) = quietly-Preserves (activate_plan-Preserves p c)
  perform-Preserves (Call.report_recording report) =
      quietly-Preserves (record_qa_report-Preserves report)
