-- ===== src/Domain/Feature.antt =====
-- domain/feature.py
use ai_engineering_os.Base.{
  Bool, Error, List, Result, String, any, err, if◌then◌else◌, is_empty, leb, not, ok, same, str_eq,
  ℕ, ◌&&◌, ◌+◌,
}
use ai_engineering_os.Domain.Enums.{
  FeatureStatus, actor_role_enum, capability_type_enum, evidence_type_enum, feature_status_enum,
  initiator_enum, plan_status_enum, task_status_enum, work_package_status_enum,
}

pub record Feature : Type 0 where
  pub id : ℕ
  pub slug : String
  pub title : String
  pub goal : String
  pub coordinator_id : ℕ
  pub status : FeatureStatus
  pub requirements : List String
  pub in_scope : List String
  pub out_of_scope : List String
  pub acceptance_criteria : List String
  pub qa_round : ℕ
  pub created_at : ℕ
  pub updated_at : ℕ

unfoldable pub is_in_scope : Feature → String → Bool
unfolding any
is_in_scope feature capability = any (str_eq capability) feature.in_scope

-- The three validators, and the bound `ge=1` of `qa_round`.
unfoldable pub is_valid_feature : Feature → Bool
unfolding any is_in_scope
is_valid_feature feature =
    leb 1 feature.qa_round
    && (not (any (is_in_scope feature) feature.out_of_scope)
        && (not (
              not (same feature.status FeatureStatus.draft) && is_empty feature.acceptance_criteria)
            && leb feature.created_at feature.updated_at))

unfoldable pub validated_feature : Feature → Result Feature
validated_feature feature = if is_valid_feature feature then ok feature else err Error.validation

unfoldable pub feature_with_status : Feature → FeatureStatus → ℕ → Result Feature
unfolding validated_feature
feature_with_status feature status at =
    validated_feature (record feature { status = status; updated_at = at })

unfoldable pub opening_next_qa_round : Feature → ℕ → Result Feature
unfolding validated_feature
opening_next_qa_round feature at = validated_feature (record feature {
  status = FeatureStatus.in_progress;
  qa_round = feature.qa_round + 1;
  updated_at = at;
})
