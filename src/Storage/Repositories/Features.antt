-- ===== src/Storage/Repositories/Features.antt =====
-- storage/repositories/feature_repo.py, at the level of rows.
use ai_engineering_os.Domain.Feature.{Feature}
use ai_engineering_os.Storage.Mappers.Feature.{
  FeatureRow, apply_feature, to_domain_feature, to_feature_row,
}
use ai_engineering_os.Storage.Repositories.{RowType, Rows, require_row, rows_where, save_row, stage}
use ai_engineering_os.Base.{Bool, Error, List, Result, String, [], and_then, err, str_eq, ℕ, ◌∷◌}

abbrev pub feature_row_type : (FeatureRow → FeatureRow → Bool) → RowType FeatureRow
feature_row_type differs = record {
  id_of = λ row. row.id;
  version_of = λ row. row.version;
  at_version = λ version row. record row { version = version };
  differs = differs;
}

module _ (differs : FeatureRow → FeatureRow → Bool) where
  abbrev t : RowType FeatureRow
  t = feature_row_type differs

  unfoldable pub add : Feature → Rows FeatureRow → Result (Unit {0}) × Rows FeatureRow
  add feature s = stage t (to_feature_row feature) s

  unfoldable pub get_by_id : ℕ → Rows FeatureRow → Result Feature × Rows FeatureRow
  get_by_id entity_id s = and_then (require_row t entity_id s) (λ row u. (to_domain_feature row, u))

  unfoldable pub save : Feature → Rows FeatureRow → Result (Unit {0}) × Rows FeatureRow
  save feature s =
      and_then (require_row t feature.id s) (λ row u. save_row t row (apply_feature feature) u)

  -- The column `slug` is unique, so that the query answers one row or none.
  unfoldable pub get_by_slug : String → Rows FeatureRow → Result Feature × Rows FeatureRow
  get_by_slug slug s = only (rows_where t (λ row. str_eq row.slug slug) (λ row. 0) s)
    where
      only : List FeatureRow × Rows FeatureRow → Result Feature × Rows FeatureRow
      only ([], u) = (err Error.not_found, u)
      only (row ∷ rows, u) = (to_domain_feature row, u)
