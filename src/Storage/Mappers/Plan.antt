-- ===== src/Storage/Mappers/Plan.antt =====
-- storage/models/plan.py and storage/mappers/plan.py.
use ai_engineering_os.Base.{List, Result, String, map, sorted_by, ℕ, ◌>>=◌}
use ai_engineering_os.Storage.Mappers.{
  read_all, read_member, read_members, reconstruct, rows_from, value_of,
}
use ai_engineering_os.Domain.Enums.{
  CapabilityType, actor_role_enum, capability_type_enum, decision_scope_enum, defect_status_enum,
  evidence_source_type_enum, evidence_type_enum, feature_status_enum, initiator_enum,
  plan_status_enum, qa_status_enum, review_outcome_enum, task_status_enum, work_package_status_enum,
}
use ai_engineering_os.Domain.Plan.{FeaturePlan, TaskDefinition, is_valid_definition, is_valid_plan}

pub record FeaturePlanRow : Type 0 where
  pub id : ℕ
  pub feature_id : ℕ
  pub revision_number : ℕ
  pub created_by : ℕ
  pub status : String
  pub required_capabilities : List String
  pub created_at : ℕ
  pub version : ℕ

-- What `apply_plan` writes on a row; the identifier and the version are the row's own.
abbrev plan_columns : FeaturePlan → ℕ → ℕ → FeaturePlanRow
plan_columns plan id version = record {
  id = id;
  version = version;
  feature_id = plan.feature_id;
  revision_number = plan.revision_number;
  created_by = plan.created_by;
  status = value_of plan.status;
  required_capabilities = map (λ (a : CapabilityType). value_of a) plan.required_capabilities;
  created_at = plan.created_at;
}

unfoldable pub apply_plan : FeaturePlan → FeaturePlanRow → FeaturePlanRow
apply_plan plan row = plan_columns plan row.id row.version

unfoldable pub to_plan_row : FeaturePlan → FeaturePlanRow
to_plan_row plan = plan_columns plan plan.id 1

pub record PlanTaskDefinitionRow : Type 0 where
  pub feature_plan_id : ℕ
  pub key : String
  pub position : ℕ
  pub title : String
  pub capability : String
  pub depends_on : List String

abbrev pub to_definition_row : ℕ → ℕ → TaskDefinition → PlanTaskDefinitionRow
to_definition_row feature_plan_id position definition = record {
  feature_plan_id = feature_plan_id;
  key = definition.key;
  position = position;
  title = definition.title;
  capability = value_of definition.capability;
  depends_on = definition.depends_on;
}

unfoldable pub to_plan_definition_rows : FeaturePlan → List PlanTaskDefinitionRow
to_plan_definition_rows plan = rows_from (to_definition_row plan.id) 0 plan.task_definitions

abbrev pub position_of_definition : PlanTaskDefinitionRow → ℕ
position_of_definition row = row.position

unfoldable pub read_definition : PlanTaskDefinitionRow → Result TaskDefinition
read_definition row = do
  capability ← read_member row.capability
  reconstruct is_valid_definition (record {
    key = row.key;
    title = row.title;
    capability = capability;
    depends_on = row.depends_on;
  })

unfoldable pub to_domain_plan : FeaturePlanRow → List PlanTaskDefinitionRow → Result FeaturePlan
to_domain_plan row definitions = do
  status ← read_member row.status
  required_capabilities ← read_members row.required_capabilities
  task_definitions ← read_all read_definition (sorted_by position_of_definition definitions)
  reconstruct is_valid_plan (record {
    id = row.id;
    feature_id = row.feature_id;
    revision_number = row.revision_number;
    created_by = row.created_by;
    status = status;
    required_capabilities = required_capabilities;
    created_at = row.created_at;
    task_definitions = task_definitions;
  })
