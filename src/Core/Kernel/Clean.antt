-- ===== src/Core/Kernel/Clean.antt =====
-- core/kernel.py: an operation that raises has committed and announced nothing.
use ai_engineering_os.Storage.Keeps.{
  Keeps, RaisesClean, chain-RaisesClean, query-RaisesClean, read-Keeps,
}
use ai_engineering_os.Storage.Database.{get_feature, get_plan}
use ai_engineering_os.Base.{Option, bind_elim, ℕ}
use ai_engineering_os.Domain.Enums.{
  FeatureStatus, Initiator, TaskStatus, actor_role_enum, capability_type_enum, decision_scope_enum,
  defect_status_enum, evidence_source_type_enum, evidence_type_enum, feature_status_enum,
  initiator_enum, plan_status_enum, qa_status_enum, review_outcome_enum, task_status_enum,
  work_package_status_enum,
}
use ai_engineering_os.Domain.Event.{event_type_enum, transition_outcome_enum}
use ai_engineering_os.Core.Requests.{
  activate_plan_request, return_for_rework_request, transition_feature_request,
}
use ai_engineering_os.Core.Kernel.{
  activate_plan, assign_task, return_for_rework, route_for_review, transition_feature,
  transition_task,
}
use ai_engineering_os.Core.Kernel.Mutating.{
  apply_activation-holds, apply_feature_status-holds, apply_rework-holds,
}
use ai_engineering_os.Core.Kernel.Asking.{
  assign_task_request-holds, feature_request-apply, route_for_review_request-holds,
  routed_task-holds, transition_task_request-holds,
}
use ai_engineering_os.Storage.Closed.{Keeps-CallLaws}
use ai_engineering_os.Core.Safety.{run-RaisesClean}
use mathlib.Core.Path.{subst}

-- A Task operation that raises, whatever it raises and wherever, has committed and announced nothing.
pub transition_task-RaisesClean :
    (task_id : ℕ) (to_state : TaskStatus) (initiator : Initiator)
    (initiator_id candidate : Option ℕ)
    → RaisesClean (transition_task task_id to_state initiator initiator_id candidate)
unfolding transition_task
transition_task-RaisesClean task_id to_state initiator initiator_id candidate =
    query-RaisesClean (λ db request h. run-RaisesClean request (
      transition_task_request-holds (λ _ call. Keeps call) Keeps-CallLaws db task_id to_state
        initiator initiator_id candidate h))

pub assign_task-RaisesClean :
    (task_id worker_id coordinator_id : ℕ)
    → RaisesClean (assign_task task_id worker_id coordinator_id)
unfolding assign_task
assign_task-RaisesClean task_id worker_id coordinator_id = query-RaisesClean (λ db request h.
    run-RaisesClean request (
      assign_task_request-holds (λ _ call. Keeps call) Keeps-CallLaws db task_id worker_id
        coordinator_id h))

pub route_for_review-RaisesClean : (task_id : ℕ) → RaisesClean (route_for_review task_id)
unfolding route_for_review
route_for_review-RaisesClean task_id = chain-RaisesClean (read-Keeps _) (λ task.
    chain-RaisesClean (read-Keeps _) (λ history. chain-RaisesClean (read-Keeps _) (λ candidates.
      chain-RaisesClean (routed_task-holds (λ _ call. Keeps call) Keeps-CallLaws task _) (λ routed.
        query-RaisesClean (λ db request h. run-RaisesClean request (
          route_for_review_request-holds (λ _ call. Keeps call) Keeps-CallLaws db task routed
            candidates _ h))))))

pub transition_feature-RaisesClean :
    (feature_id : ℕ) (to_state : FeatureStatus) (initiator : Initiator) (initiator_id : Option ℕ)
    → RaisesClean (transition_feature feature_id to_state initiator initiator_id)
unfolding transition_feature transition_feature_request
transition_feature-RaisesClean feature_id to_state initiator initiator_id =
    query-RaisesClean (λ db request h.
      let (feature, _, h1) = bind_elim (get_feature db feature_id) _ h in
      run-RaisesClean request (
        subst (λ a. Keeps a) (feature_request-apply db feature _ _ _ _ _ _ _ h1)
          (apply_feature_status-holds (λ _ call. Keeps call) Keeps-CallLaws feature to_state)))

pub return_for_rework-RaisesClean :
    (feature_id : ℕ) (initiator : Initiator) (initiator_id : ℕ)
    → RaisesClean (return_for_rework feature_id initiator initiator_id)
unfolding return_for_rework return_for_rework_request
return_for_rework-RaisesClean feature_id initiator initiator_id = query-RaisesClean (λ db request h.
    let (feature, _, h1) = bind_elim (get_feature db feature_id) _ h in
    run-RaisesClean request (
      subst (λ a. Keeps a) (feature_request-apply db feature _ _ _ _ _ _ _ h1)
        (apply_rework-holds (λ _ call. Keeps call) Keeps-CallLaws feature)))

pub activate_plan-RaisesClean :
    (plan_id coordinator_id : ℕ) → RaisesClean (activate_plan plan_id coordinator_id)
unfolding activate_plan activate_plan_request
activate_plan-RaisesClean plan_id coordinator_id = query-RaisesClean (λ db request h.
    let (plan, _, h1) = bind_elim (get_plan db plan_id) _ h in
    let (feature, _, h2) = bind_elim (get_feature db plan.feature_id) _ h1 in
    run-RaisesClean request (
      subst (λ a. Keeps a) (feature_request-apply db feature _ _ _ _ _ _ _ h2)
        (apply_activation-holds (λ _ call. Keeps call) Keeps-CallLaws plan feature)))
