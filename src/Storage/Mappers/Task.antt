-- ===== src/Storage/Mappers/Task.antt =====
-- storage/models/task.py and storage/mappers/task.py: Tasks and their dependencies.
use ai_engineering_os.Base.{List, Option, Result, String, map, ok, sorted_by, ℕ, ◌>>=◌}
use ai_engineering_os.Storage.Mappers.{read_member, reconstruct, rows_from, value_of}
use ai_engineering_os.Domain.Enums.{
  actor_role_enum, capability_type_enum, decision_scope_enum, defect_status_enum,
  evidence_source_type_enum, evidence_type_enum, feature_status_enum, initiator_enum,
  plan_status_enum, qa_status_enum, review_outcome_enum, task_status_enum, work_package_status_enum,
}
use ai_engineering_os.Domain.Task.{Task, is_valid_task}

pub record TaskRow : Type 0 where
  pub id : ℕ
  pub feature_id : ℕ
  pub feature_plan_id : ℕ
  pub plan_definition_key : String
  pub title : String
  pub capability : String
  pub status : String
  pub assigned_worker_id : Option ℕ
  pub reviewer_id : Option ℕ
  pub active_revision_number : ℕ
  pub created_at : ℕ
  pub updated_at : ℕ
  pub version : ℕ

-- What `apply_task` writes on a row; the identifier and the version are the row's own.
abbrev task_columns : Task → ℕ → ℕ → TaskRow
task_columns task id version = record {
  id = id;
  version = version;
  feature_id = task.feature_id;
  feature_plan_id = task.feature_plan_id;
  plan_definition_key = task.plan_definition_key;
  title = task.title;
  capability = value_of task.capability;
  status = value_of task.status;
  assigned_worker_id = task.assigned_worker_id;
  reviewer_id = task.reviewer_id;
  active_revision_number = task.active_revision_number;
  created_at = task.created_at;
  updated_at = task.updated_at;
}

unfoldable pub apply_task : Task → TaskRow → TaskRow
apply_task task row = task_columns task row.id row.version

unfoldable pub to_task_row : Task → TaskRow
to_task_row task = task_columns task task.id 1

pub record TaskDependencyRow : Type 0 where
  pub task_id : ℕ
  pub depends_on_task_id : ℕ
  pub position : ℕ

abbrev pub to_dependency_row : ℕ → ℕ → ℕ → TaskDependencyRow
to_dependency_row task_id position dependency = record {
  task_id = task_id;
  depends_on_task_id = dependency;
  position = position;
}

unfoldable pub to_task_dependency_rows : Task → List TaskDependencyRow
to_task_dependency_rows task = rows_from (to_dependency_row task.id) 0 task.dependencies

abbrev pub position_of_dependency : TaskDependencyRow → ℕ
position_of_dependency edge = edge.position

unfoldable pub to_domain_task : TaskRow → List TaskDependencyRow → Result Task
to_domain_task row edges = do
  capability ← read_member row.capability
  status ← read_member row.status
  dependencies ← ok (
      map (λ (edge : TaskDependencyRow). edge.depends_on_task_id)
        (sorted_by position_of_dependency edges))
  reconstruct is_valid_task (record {
    id = row.id;
    feature_id = row.feature_id;
    feature_plan_id = row.feature_plan_id;
    plan_definition_key = row.plan_definition_key;
    title = row.title;
    capability = capability;
    status = status;
    assigned_worker_id = row.assigned_worker_id;
    reviewer_id = row.reviewer_id;
    active_revision_number = row.active_revision_number;
    created_at = row.created_at;
    updated_at = row.updated_at;
    dependencies = dependencies;
  })
