-- ===== src/Storage/Repositories/Plans.antt =====
-- storage/repositories/plan_repo.py, at the level of rows.
use ai_engineering_os.Domain.Plan.{FeaturePlan}
use ai_engineering_os.Storage.Mappers.Plan.{
  FeaturePlanRow, PlanTaskDefinitionRow, apply_plan, position_of_definition, to_domain_plan,
  to_plan_definition_rows, to_plan_row,
}
use ai_engineering_os.Storage.Repositories.{
  RowType, Rows, listed, require_row, rows_where, save_row, stage,
}
use ai_engineering_os.Base.{Bool, List, Result, and_then, filter, ok, sorted_by, ℕ, ◌++◌, ◌==◌}

pub record PlanRepository : Type 0 where
  pub rows : Rows FeaturePlanRow
  pub definitions : List PlanTaskDefinitionRow

abbrev pub plan_row_type : (FeaturePlanRow → FeaturePlanRow → Bool) → RowType FeaturePlanRow
plan_row_type differs = record {
  id_of = λ row. row.id;
  version_of = λ row. row.version;
  at_version = λ version row. record row { version = version };
  differs = differs;
}

module _ (differs : FeaturePlanRow → FeaturePlanRow → Bool) where
  abbrev t : RowType FeaturePlanRow
  t = plan_row_type differs

  abbrev put :
      PlanRepository
      → {Value : Type 0} → Result Value × Rows FeaturePlanRow
      → Result Value × PlanRepository
  put s (result, rows) = (result, record s { rows = rows })

  unfoldable pub add : FeaturePlan → PlanRepository → Result (Unit {0}) × PlanRepository
  add plan s =
      and_then (put s (stage t (to_plan_row plan) s.rows))
        (λ _ u. (ok tt, record u { definitions = u.definitions ++ to_plan_definition_rows plan }))

  unfoldable pub definitions_of : ℕ → List PlanTaskDefinitionRow → List PlanTaskDefinitionRow
  definitions_of entity_id children =
      sorted_by position_of_definition
        (filter (λ child. child.feature_plan_id == entity_id) children)

  unfoldable pub get_by_id : ℕ → PlanRepository → Result FeaturePlan × PlanRepository
  get_by_id entity_id s =
      and_then (put s (require_row t entity_id s.rows))
        (λ row u. (to_domain_plan row (definitions_of entity_id u.definitions), u))

  unfoldable pub list_by_feature : ℕ → PlanRepository → Result (List FeaturePlan) × PlanRepository
  list_by_feature feature_id s = put s (
      listed (λ row. to_domain_plan row (definitions_of row.id s.definitions))
        (rows_where t (λ row. row.feature_id == feature_id) (λ row. row.revision_number) s.rows))

  -- The definition rows are not rewritten.
  unfoldable pub save : FeaturePlan → PlanRepository → Result (Unit {0}) × PlanRepository
  save plan s =
      put s (and_then (require_row t plan.id s.rows) (λ row u. save_row t row (apply_plan plan) u))
