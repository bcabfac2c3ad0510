-- ===== src/Core/Requests.antt =====
-- core/kernel.py: the request that each operation hands to the runner, read from the database.
use ai_engineering_os.Base.{List, Option, Result, [], none, ok, some, ℕ, ◌+◌, ◌∷◌, ◌>>=◌}
use ai_engineering_os.Storage.Database.{Database, get_actor, get_feature, get_plan, get_task}
use ai_engineering_os.Domain.Enums.{
  ActorRole, FeatureStatus, Initiator, SystemActor, TaskStatus, role, system, actor_role_enum,
  capability_type_enum, evidence_type_enum, feature_status_enum, initiator_enum, plan_status_enum,
  qa_status_enum, review_outcome_enum, task_status_enum, work_package_status_enum,
}
use ai_engineering_os.Domain.Event.{EventType, Payload, PayloadValue}
use ai_engineering_os.Domain.Actor.{Actor}
use ai_engineering_os.Domain.Task.{Task}
use ai_engineering_os.Domain.Feature.{Feature}
use ai_engineering_os.Core.ContextLoader.{load_rule_context}
use ai_engineering_os.Core.Mutations.{
  apply_activation, apply_assignment, apply_feature_status, apply_rework, apply_task_status,
}
use ai_engineering_os.Core.Rendering.{initiator_id_for}
use ai_engineering_os.Core.Runner.{TransitionRequest}
use ai_engineering_os.State.TaskSm.{task_state_machine}
use ai_engineering_os.State.FeatureSm.{feature_state_machine}
use ai_engineering_os.Storage.Session.{Action}
use ai_engineering_os.Storage.Writes.{save_task}

-- `_actor`
unfoldable pub actor_of : Database → Option ℕ → Result (Option Actor)
actor_of db none = ok none
actor_of db (some actor_id) = do actor ← get_actor db actor_id; ok (some actor)

-- `OSKernel.transition_task`
unfoldable pub transition_task_request :
    Database
    → ℕ
    → TaskStatus
    → Initiator
    → Option ℕ
    → Option ℕ
    → Result (TransitionRequest TaskStatus)
transition_task_request db task_id to_state initiator initiator_id candidate_worker_id = do
  task ← get_task db task_id
  requesting_actor ← actor_of db initiator_id
  candidate_worker ← actor_of db candidate_worker_id
  context ← load_rule_context db none (some task) requesting_actor candidate_worker none
  ok (record {
    machine = task_state_machine;
    entity_type = "Task";
    entity_id = task.id;
    from_state = task.status;
    to_state = to_state;
    initiator = initiator;
    initiator_id = initiator_id_for initiator initiator_id;
    context = context;
    apply = apply_task_status task to_state;
    allowed_event_type = EventType.state_transition_allowed;
    payload = [];
  })

-- `OSKernel.assign_task`
unfoldable pub assign_task_request : Database → ℕ → ℕ → ℕ → Result (TransitionRequest TaskStatus)
assign_task_request db task_id worker_id coordinator_id = do
  task ← get_task db task_id
  worker ← get_actor db worker_id
  requesting_actor ← actor_of db (some coordinator_id)
  context ← load_rule_context db none (some task) requesting_actor (some worker) none
  ok (record {
    machine = task_state_machine;
    entity_type = "Task";
    entity_id = task.id;
    from_state = task.status;
    to_state = TaskStatus.assigned;
    initiator = role ActorRole.coordinator;
    initiator_id = some coordinator_id;
    context = context;
    apply = apply_assignment task worker_id;
    allowed_event_type = EventType.task_assigned;
    payload = ("worker_id", PayloadValue.identifier (some worker_id)) ∷ [];
  })

-- The second half of `OSKernel.route_for_review`, once the Task is `routed`.
unfoldable pub route_for_review_request :
    Database → Task → Task → List Actor → Option ℕ → Result (TransitionRequest TaskStatus)
route_for_review_request db task routed candidates reviewer_id = do
  context ← load_rule_context db none (some routed) none none (some candidates)
  ok (record {
    machine = task_state_machine;
    entity_type = "Task";
    entity_id = task.id;
    from_state = task.status;
    to_state = TaskStatus.in_review;
    initiator = system SystemActor.os;
    initiator_id = none;
    context = context;
    apply = save_task routed;
    allowed_event_type = EventType.state_transition_allowed;
    payload = ("reviewer_id", PayloadValue.identifier reviewer_id) ∷ [];
  })

-- What a Feature operation asks for: the target, the event and its payload, the mutation.
unfoldable pub feature_request :
    Database
    → Feature
    → FeatureStatus
    → Initiator
    → Option ℕ
    → Option ℕ
    → EventType
    → Payload
    → Action (Unit {0})
    → Result (TransitionRequest FeatureStatus)
feature_request db feature to_state initiator actor_id initiator_id event_type payload apply = do
  requesting_actor ← actor_of db actor_id
  context ← load_rule_context db (some feature) none requesting_actor none none
  ok (record {
    machine = feature_state_machine;
    entity_type = "Feature";
    entity_id = feature.id;
    from_state = feature.status;
    to_state = to_state;
    initiator = initiator;
    initiator_id = initiator_id;
    context = context;
    apply = apply;
    allowed_event_type = event_type;
    payload = payload;
  })

abbrev pub feature_event_type : FeatureStatus → EventType
feature_event_type FeatureStatus.accepted = EventType.feature_accepted
feature_event_type _ = EventType.state_transition_allowed

-- `OSKernel.transition_feature`
unfoldable pub transition_feature_request :
    Database → ℕ → FeatureStatus → Initiator → Option ℕ → Result (TransitionRequest FeatureStatus)
transition_feature_request db feature_id to_state initiator initiator_id = do
  feature ← get_feature db feature_id
  feature_request db feature to_state initiator initiator_id
      (initiator_id_for initiator initiator_id) (feature_event_type to_state) []
      (apply_feature_status feature to_state)

-- `OSKernel.return_for_rework`
unfoldable pub return_for_rework_request :
    Database → ℕ → Initiator → ℕ → Result (TransitionRequest FeatureStatus)
return_for_rework_request db feature_id initiator initiator_id = do
  feature ← get_feature db feature_id
  feature_request db feature FeatureStatus.in_progress initiator (some initiator_id)
      (initiator_id_for initiator (some initiator_id)) EventType.state_transition_allowed
      (("opened_qa_round", PayloadValue.number (feature.qa_round + 1)) ∷ []) (apply_rework feature)

-- `OSKernel.activate_plan`
unfoldable pub activate_plan_request : Database → ℕ → ℕ → Result (TransitionRequest FeatureStatus)
activate_plan_request db plan_id coordinator_id = do
  plan ← get_plan db plan_id
  feature ← get_feature db plan.feature_id
  feature_request db feature FeatureStatus.in_progress (role ActorRole.coordinator)
      (some coordinator_id) (some coordinator_id) EventType.feature_plan_activated
      (("feature_plan_id", PayloadValue.identifier (some plan.id)) ∷ [])
      (apply_activation plan feature)
