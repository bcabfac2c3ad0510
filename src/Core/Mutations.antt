-- ===== src/Core/Mutations.antt =====
-- core/kernel.py: what each operation does to the entities once its transition is validated (the
-- `apply` closures), with `_instantiate` and `_resolved_dependencies`.
use ai_engineering_os.Storage.Session.{Action, done, lift, new_id, read, utc_now, ◌>>=◌, ◌>>◌}
use ai_engineering_os.Storage.Writes.{add_task, save_feature, save_plan, save_task}
use ai_engineering_os.Storage.Database.{Database, list_tasks_by_feature}
use ai_engineering_os.Base.{
  Bool, List, Option, Result, String, [], any, false, filter, if◌then◌else◌, map, none, ok, some,
  str_eq, true, ℕ, ◌==◌, ◌∷◌,
}
use ai_engineering_os.Domain.Enums.{
  FeatureStatus, PlanStatus, TaskStatus, actor_role_enum, capability_type_enum, evidence_type_enum,
  feature_status_enum, initiator_enum, plan_status_enum, qa_status_enum, review_outcome_enum,
  task_status_enum, work_package_status_enum,
}
use ai_engineering_os.Domain.Task.{Task, assign, validated, with_status}
use ai_engineering_os.Domain.Feature.{Feature, feature_with_status, opening_next_qa_round}
use ai_engineering_os.Domain.Plan.{FeaturePlan, TaskDefinition, plan_with_status}

unfoldable pub apply_task_status : Task → TaskStatus → Action (Unit {0})
apply_task_status task to_state = do
  at ← utc_now
  changed ← lift (with_status task to_state at)
  save_task changed

unfoldable pub apply_assignment : Task → ℕ → Action (Unit {0})
apply_assignment task worker_id = do
  at ← utc_now
  changed ← lift (assign task worker_id at)
  save_task changed

unfoldable pub apply_feature_status : Feature → FeatureStatus → Action (Unit {0})
apply_feature_status feature to_state = do
  at ← utc_now
  changed ← lift (feature_with_status feature to_state at)
  save_feature changed

unfoldable pub apply_rework : Feature → Action (Unit {0})
apply_rework feature = do
  at ← utc_now
  changed ← lift (opening_next_qa_round feature at)
  save_feature changed

-- `existing`: the definitions of the Plan that already have a Task.
unfoldable pub existing_keys : Database → FeaturePlan → Feature → List String
existing_keys db plan feature =
    map (λ (t : Task). t.plan_definition_key)
      (filter (λ (t : Task). t.feature_plan_id == plan.id) (list_tasks_by_feature db feature.id))

-- `created`: the last entry of a key stands first.
abbrev pub Created : Type 0
Created = List (String × ℕ)

unfoldable pub task_id_for : Created → String → Option ℕ
task_id_for [] key = none
task_id_for ((other, task_id) ∷ rest) key =
    let earlier = task_id_for rest key in if str_eq other key then some task_id else earlier

unfoldable pub allocate_one : List String → String → Created → Action Created
allocate_one existing key created = allocated (any (str_eq key) existing)
  where
    allocated : Bool → Action Created
    allocated true = done created
    allocated false = do task_id ← new_id; done ((key, task_id) ∷ created)

unfoldable pub allocate : List String → List TaskDefinition → Created → Action Created
allocate existing [] created = done created
allocate existing (definition ∷ rest) created = do
  extended ← allocate_one existing definition.key created
  allocate existing rest extended

-- `_resolved_dependencies`
unfoldable pub resolved_dependencies : Created → List String → List ℕ
resolved_dependencies created [] = []
resolved_dependencies created (key ∷ rest) =
    given (task_id_for created key) (resolved_dependencies created rest)
  where
    given : Option ℕ → List ℕ → List ℕ
    given none later = later
    given (some task_id) later = task_id ∷ later

unfoldable pub new_task : FeaturePlan → Feature → Created → TaskDefinition → ℕ → ℕ → ℕ → Result Task
new_task plan feature created definition task_id created_at updated_at = validated (record {
  id = task_id;
  feature_id = feature.id;
  feature_plan_id = plan.id;
  plan_definition_key = definition.key;
  title = definition.title;
  capability = definition.capability;
  status = TaskStatus.created;
  assigned_worker_id = none;
  reviewer_id = none;
  dependencies = resolved_dependencies created definition.depends_on;
  active_revision_number = 0;
  created_at = created_at;
  updated_at = updated_at;
})

unfoldable pub create_one : FeaturePlan → Feature → Created → TaskDefinition → Action (Unit {0})
create_one plan feature created definition = made (task_id_for created definition.key)
  where
    made : Option ℕ → Action (Unit {0})
    made none = done tt
    made (some task_id) = do
      created_at ← utc_now
      updated_at ← utc_now
      task ← lift (new_task plan feature created definition task_id created_at updated_at)
      add_task task

unfoldable pub create_tasks :
    FeaturePlan → Feature → Created → List TaskDefinition → Action (Unit {0})
create_tasks plan feature created [] = done tt
create_tasks plan feature created (definition ∷ rest) = do
  create_one plan feature created definition
  create_tasks plan feature created rest

-- `_instantiate`
unfoldable pub instantiate : FeaturePlan → Feature → Action (Unit {0})
instantiate plan feature = do
  existing ← read (λ db. ok (existing_keys db plan feature))
  created ← allocate existing plan.task_definitions []
  create_tasks plan feature created plan.task_definitions

unfoldable pub apply_activation : FeaturePlan → Feature → Action (Unit {0})
apply_activation plan feature = do
  instantiate plan feature
  changed ← lift (plan_with_status plan PlanStatus.active)
  save_plan changed
  apply_feature_status feature FeatureStatus.in_progress
