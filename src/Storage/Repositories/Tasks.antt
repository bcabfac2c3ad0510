-- ===== src/Storage/Repositories/Tasks.antt =====
-- storage/repositories/task_repo.py, at the level of rows.
use ai_engineering_os.Storage.Mappers.{read_all}
use ai_engineering_os.Base.{
  Bool, List, Result, [], and_then, any, filter, map, ok, sorted_by, ℕ, ◌++◌, ◌==◌, ◌∷◌,
}
use ai_engineering_os.Domain.Task.{Task}
use ai_engineering_os.Storage.Mappers.Task.{
  TaskDependencyRow, TaskRow, apply_task, position_of_dependency, to_domain_task,
  to_task_dependency_rows, to_task_row,
}
use ai_engineering_os.Storage.Repositories.{RowType, Rows, require_row, rows_where, save_row, stage}

-- The rows of `tasks`, and those of `task_dependencies`.
pub record TaskRepository : Type 0 where
  pub rows : Rows TaskRow
  pub edges : List TaskDependencyRow

-- How SQLAlchemy finds that a row differs from what was read is its own.
abbrev pub task_row_type : (TaskRow → TaskRow → Bool) → RowType TaskRow
task_row_type differs = record {
  id_of = λ row. row.id;
  version_of = λ row. row.version;
  at_version = λ version row. record row { version = version };
  differs = differs;
}

-- `_dependency_map`: the edges of some Tasks, by Task and in order.
unfoldable pub dependency_map : List ℕ → List TaskDependencyRow → ℕ → List TaskDependencyRow
dependency_map [] edges task_id = []
dependency_map (first ∷ rest) edges task_id =
    filter (λ (edge : TaskDependencyRow). edge.task_id == task_id)
      (sorted_by position_of_dependency (
        filter (λ (edge : TaskDependencyRow). any (λ id. id == edge.task_id) (first ∷ rest)) edges))

module _ (differs : TaskRow → TaskRow → Bool) where
  abbrev t : RowType TaskRow
  t = task_row_type differs

  abbrev put :
      TaskRepository
      → {Value : Type 0} → Result Value × Rows TaskRow
      → Result Value × TaskRepository
  put s (result, rows) = (result, record s { rows = rows })

  unfoldable pub add : Task → TaskRepository → Result (Unit {0}) × TaskRepository
  add task s =
      and_then (put s (stage t (to_task_row task) s.rows))
        (λ _ u. (ok tt, record u { edges = u.edges ++ to_task_dependency_rows task }))

  unfoldable pub get_by_id : ℕ → TaskRepository → Result Task × TaskRepository
  get_by_id task_id s =
      and_then (put s (require_row t task_id s.rows))
        (λ row u. (to_domain_task row (dependency_map (task_id ∷ []) s.edges row.id), u))

  unfoldable pub list_by_feature : ℕ → TaskRepository → Result (List Task) × TaskRepository
  list_by_feature feature_id s =
      let (rows, u) =
        rows_where t (λ row. row.feature_id == feature_id) (λ row. row.created_at) s.rows in
      let edges = dependency_map (map (λ (row : TaskRow). row.id) rows) s.edges in
      (read_all (λ (row : TaskRow). to_domain_task row (edges row.id)) rows, record s { rows = u })

  unfoldable pub save : Task → TaskRepository → Result (Unit {0}) × TaskRepository
  save task s =
      put s (and_then (require_row t task.id s.rows) (λ row u. save_row t row (apply_task task) u))
