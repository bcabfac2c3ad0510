-- ===== src/Core/Kernel/Mutating.antt =====
-- core/kernel.py: a property of calls that chains keep, for the mutations of the operations.
use ai_engineering_os.Storage.Session.{Action}
use ai_engineering_os.Storage.Closed.{CallLaws}
use ai_engineering_os.Base.{
  Bool-cases, List, Option-cases, String, [], any, inl, inr, str_eq, ℕ, ◌∷◌,
}
use ai_engineering_os.Domain.Enums.{
  FeatureStatus, TaskStatus, actor_role_enum, capability_type_enum, decision_scope_enum,
  defect_status_enum, evidence_source_type_enum, evidence_type_enum, feature_status_enum,
  initiator_enum, plan_status_enum, qa_status_enum, review_outcome_enum, task_status_enum,
  work_package_status_enum,
}
use ai_engineering_os.Domain.Task.{Task}
use ai_engineering_os.Domain.Feature.{Feature}
use ai_engineering_os.Domain.Plan.{FeaturePlan, TaskDefinition}
use ai_engineering_os.Core.Mutations.{
  Created, allocate, allocate_one, apply_activation, apply_assignment, apply_feature_status,
  apply_rework, apply_task_status, create_one, create_tasks, instantiate, task_id_for,
}

module _ (P : (Value : Type 0) → Action Value → Type 0) (laws : CallLaws P) where
  pub apply_task_status-holds :
      (task : Task) (to_state : TaskStatus) → P _ (apply_task_status task to_state)
  unfolding apply_task_status
  apply_task_status-holds task to_state =
      laws.chain laws.draws_time
        (λ at. laws.chain (laws.lifts _) (λ changed. laws.saves_task changed))

  pub apply_assignment-holds : (task : Task) (worker_id : ℕ) → P _ (apply_assignment task worker_id)
  unfolding apply_assignment
  apply_assignment-holds task worker_id =
      laws.chain laws.draws_time
        (λ at. laws.chain (laws.lifts _) (λ changed. laws.saves_task changed))

  pub apply_feature_status-holds :
      (feature : Feature) (to_state : FeatureStatus) → P _ (apply_feature_status feature to_state)
  unfolding apply_feature_status
  apply_feature_status-holds feature to_state =
      laws.chain laws.draws_time
        (λ at. laws.chain (laws.lifts _) (λ changed. laws.saves_feature changed))

  pub apply_rework-holds : (feature : Feature) → P _ (apply_rework feature)
  unfolding apply_rework
  apply_rework-holds feature =
      laws.chain laws.draws_time
        (λ at. laws.chain (laws.lifts _) (λ changed. laws.saves_feature changed))

  allocate_one-holds :
      (existing : List String) (key : String) (created : Created)
      → P _ (allocate_one existing key created)
  unfolding allocate_one
  allocate_one-holds existing key created = elim (Bool-cases (any (str_eq key) existing)) [
    | inl h ↦ rw h (laws.returns created)
    | inr h ↦ rw h (laws.chain laws.draws_id (λ id. laws.returns ((key, id) ∷ created)))
  ]

  allocate-holds :
      (existing : List String) (definitions : List TaskDefinition) (created : Created)
      → P _ (allocate existing definitions created)
  unfolding allocate
  allocate-holds existing [] created = laws.returns created
  allocate-holds existing (definition ∷ rest) created =
      laws.chain (allocate_one-holds existing definition.key created)
        (λ extended. allocate-holds existing rest extended)

  create_one-holds :
      (plan : FeaturePlan) (feature : Feature) (created : Created) (definition : TaskDefinition)
      → P _ (create_one plan feature created definition)
  unfolding create_one
  create_one-holds plan feature created definition =
      elim (Option-cases (task_id_for created definition.key)) [
        | inl h ↦ rw h (laws.returns tt)
        | inr (task_id, h) ↦ rw h (
            laws.chain laws.draws_time (λ a.
              laws.chain laws.draws_time
                (λ b. laws.chain (laws.lifts _) (λ task. laws.adds_task task))))
      ]

  create_tasks-holds :
      (plan : FeaturePlan) (feature : Feature) (created : Created)
      (definitions : List TaskDefinition)
      → P _ (create_tasks plan feature created definitions)
  unfolding create_tasks
  create_tasks-holds plan feature created [] = laws.returns tt
  create_tasks-holds plan feature created (definition ∷ rest) =
      laws.chain (create_one-holds plan feature created definition)
        (λ _. create_tasks-holds plan feature created rest)

  pub apply_activation-holds :
      (plan : FeaturePlan) (feature : Feature) → P _ (apply_activation plan feature)
  unfolding apply_activation instantiate
  apply_activation-holds plan feature =
      laws.chain
        (laws.chain (laws.reads _) (λ existing.
          laws.chain (allocate-holds existing plan.task_definitions [])
            (λ created. create_tasks-holds plan feature created plan.task_definitions)))
        (λ _. laws.chain (laws.lifts _) (λ changed.
          laws.chain (laws.saves_plan changed)
            (λ _. apply_feature_status-holds feature FeatureStatus.in_progress)))
