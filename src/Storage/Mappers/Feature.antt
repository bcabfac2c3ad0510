-- ===== src/Storage/Mappers/Feature.antt =====
-- storage/models/feature.py and storage/mappers/feature.py.
use ai_engineering_os.Base.{List, Result, String, ℕ, ◌>>=◌}
use ai_engineering_os.Storage.Mappers.{read_member, reconstruct, value_of}
use ai_engineering_os.Domain.Enums.{
  actor_role_enum, capability_type_enum, decision_scope_enum, defect_status_enum,
  evidence_source_type_enum, evidence_type_enum, feature_status_enum, initiator_enum,
  plan_status_enum, qa_status_enum, review_outcome_enum, task_status_enum, work_package_status_enum,
}
use ai_engineering_os.Domain.Feature.{Feature, is_valid_feature}

pub record FeatureRow : Type 0 where
  pub id : ℕ
  pub slug : String
  pub title : String
  pub goal : String
  pub coordinator_id : ℕ
  pub status : String
  pub requirements : List String
  pub in_scope : List String
  pub out_of_scope : List String
  pub acceptance_criteria : List String
  pub qa_round : ℕ
  pub created_at : ℕ
  pub updated_at : ℕ
  pub version : ℕ

-- What `apply_feature` writes on a row; the identifier and the version are the row's own.
abbrev feature_columns : Feature → ℕ → ℕ → FeatureRow
feature_columns feature id version = record {
  id = id;
  version = version;
  slug = feature.slug;
  title = feature.title;
  goal = feature.goal;
  coordinator_id = feature.coordinator_id;
  status = value_of feature.status;
  requirements = feature.requirements;
  in_scope = feature.in_scope;
  out_of_scope = feature.out_of_scope;
  acceptance_criteria = feature.acceptance_criteria;
  qa_round = feature.qa_round;
  created_at = feature.created_at;
  updated_at = feature.updated_at;
}

unfoldable pub apply_feature : Feature → FeatureRow → FeatureRow
apply_feature feature row = feature_columns feature row.id row.version

unfoldable pub to_feature_row : Feature → FeatureRow
to_feature_row feature = feature_columns feature feature.id 1

unfoldable pub to_domain_feature : FeatureRow → Result Feature
to_domain_feature row = do
  status ← read_member row.status
  reconstruct is_valid_feature (record {
    id = row.id;
    slug = row.slug;
    title = row.title;
    goal = row.goal;
    coordinator_id = row.coordinator_id;
    status = status;
    requirements = row.requirements;
    in_scope = row.in_scope;
    out_of_scope = row.out_of_scope;
    acceptance_criteria = row.acceptance_criteria;
    qa_round = row.qa_round;
    created_at = row.created_at;
    updated_at = row.updated_at;
  })
