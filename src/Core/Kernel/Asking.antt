-- ===== src/Core/Kernel/Asking.antt =====
-- core/kernel.py: a property of calls that chains keep, for the mutation of each request.
use ai_engineering_os.Storage.Closed.{CallLaws}
use ai_engineering_os.Core.Kernel.Mutating.{apply_assignment-holds, apply_task_status-holds}
use ai_engineering_os.Storage.Session.{Action}
use ai_engineering_os.Storage.Database.{Database, get_actor, get_task}
use ai_engineering_os.Base.{List, Option, bind_elim, none, ok, some, ℕ, ◌≡◌}
use ai_engineering_os.Domain.Enums.{
  FeatureStatus, Initiator, TaskStatus, actor_role_enum, capability_type_enum, decision_scope_enum,
  defect_status_enum, evidence_source_type_enum, evidence_type_enum, feature_status_enum,
  initiator_enum, plan_status_enum, qa_status_enum, review_outcome_enum, task_status_enum,
  work_package_status_enum,
}
use ai_engineering_os.Domain.Actor.{Actor}
use ai_engineering_os.Domain.Task.{Task}
use ai_engineering_os.Domain.Feature.{Feature}
use ai_engineering_os.Domain.Event.{EventType, Payload, event_type_enum, transition_outcome_enum}
use ai_engineering_os.Core.ContextLoader.{load_rule_context}
use ai_engineering_os.Core.Requests.{
  actor_of, assign_task_request, feature_request, route_for_review_request, transition_task_request,
}
use ai_engineering_os.Core.Kernel.{routed_task}
use ai_engineering_os.Core.Runner.{TransitionRequest}
use mathlib.Core.Path.{subst}
use ai_engineering_os.Core.Mutations.{apply_assignment, apply_task_status}
use ai_engineering_os.Storage.Writes.{save_task}

pub feature_request-apply :
    (db : Database) (feature : Feature) (to_state : FeatureStatus) (initiator : Initiator)
    (actor_id initiator_id : Option ℕ) (event_type : EventType) (payload : Payload)
    (apply : Action (Unit {0})) {request : TransitionRequest FeatureStatus}
    → feature_request db feature to_state initiator actor_id initiator_id event_type payload apply
      ≡ ok request
    → apply ≡ request.apply
unfolding feature_request
feature_request-apply db feature to_state initiator actor_id initiator_id event_type payload apply
      h =
    let (requesting, _, h1) = bind_elim (actor_of db actor_id) _ h in
    let (context, _, h2) =
      bind_elim (load_rule_context db (some feature) none requesting none none) _ h1 in
    cc h2

module _ (P : (Value : Type 0) → Action Value → Type 0) (laws : CallLaws P) where
  pub transition_task_request-holds :
      (db : Database) (task_id : ℕ) (to_state : TaskStatus) (initiator : Initiator)
      (initiator_id candidate : Option ℕ) {request : TransitionRequest TaskStatus}
      → transition_task_request db task_id to_state initiator initiator_id candidate ≡ ok request
      → P _ request.apply
  unfolding transition_task_request
  transition_task_request-holds db task_id to_state initiator initiator_id candidate {request} h =
      let (task, _, h1) = bind_elim (get_task db task_id) _ h in
      let (requesting, _, h2) = bind_elim (actor_of db initiator_id) _ h1 in
      let (worker, _, h3) = bind_elim (actor_of db candidate) _ h2 in
      let (context, _, h4) =
        bind_elim (load_rule_context db none (some task) requesting worker none) _ h3 in
      let same_apply : apply_task_status task to_state ≡ request.apply = cc h4 in
      subst (λ a. P _ a) same_apply (apply_task_status-holds P laws task to_state)

  pub assign_task_request-holds :
      (db : Database) (task_id worker_id coordinator_id : ℕ)
      {request : TransitionRequest TaskStatus}
      → assign_task_request db task_id worker_id coordinator_id ≡ ok request
      → P _ request.apply
  unfolding assign_task_request
  assign_task_request-holds db task_id worker_id coordinator_id {request} h =
      let (task, _, h1) = bind_elim (get_task db task_id) _ h in
      let (worker, _, h2) = bind_elim (get_actor db worker_id) _ h1 in
      let (requesting, _, h3) = bind_elim (actor_of db (some coordinator_id)) _ h2 in
      let (context, _, h4) =
        bind_elim (load_rule_context db none (some task) requesting (some worker) none) _ h3 in
      let same_apply : apply_assignment task worker_id ≡ request.apply = cc h4 in
      subst (λ a. P _ a) same_apply (apply_assignment-holds P laws task worker_id)

  pub route_for_review_request-holds :
      (db : Database) (task routed : Task) (candidates : List Actor) (reviewer_id : Option ℕ)
      {request : TransitionRequest TaskStatus}
      → route_for_review_request db task routed candidates reviewer_id ≡ ok request
      → P _ request.apply
  unfolding route_for_review_request
  route_for_review_request-holds db task routed candidates reviewer_id {request} h =
      let (context, _, h1) =
        bind_elim (load_rule_context db none (some routed) none none (some candidates)) _ h in
      let same_apply : save_task routed ≡ request.apply = cc h1 in
      subst (λ a. P _ a) same_apply (laws.saves_task routed)

  pub routed_task-holds : (task : Task) (reviewer : Option Actor) → P _ (routed_task task reviewer)
  unfolding routed_task
  routed_task-holds task none = laws.returns task
  routed_task-holds task (some reviewer) = laws.chain laws.draws_time (λ at. laws.lifts _)
