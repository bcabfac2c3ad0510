-- ===== src/Storage/Repositories/WorkPackages.antt =====
-- storage/repositories/work_package_repo.py, at the level of rows.
use ai_engineering_os.Domain.Enums.{
  WorkPackageStatus, actor_role_enum, capability_type_enum, decision_scope_enum, defect_status_enum,
  evidence_source_type_enum, evidence_type_enum, feature_status_enum, initiator_enum,
  plan_status_enum, qa_status_enum, review_outcome_enum, task_status_enum, work_package_status_enum,
}
use ai_engineering_os.Storage.Mappers.{value_of}
use ai_engineering_os.Base.{
  Bool, Error, List, Option, Result, String, [], and_then, err, false, filter, if◌then◌else◌,
  is_empty, map, none, not, some, str_eq, true, ℕ, ◌&&◌, ◌==◌, ◌∷◌,
}
use ai_engineering_os.Domain.WorkPackage.{Claim, VerificationGuide, WorkPackage}
use ai_engineering_os.Storage.Mappers.WorkPackage.{
  WorkPackageRow, apply_work_package, to_domain_work_package, to_work_package_row,
}
use ai_engineering_os.Storage.Repositories.{RowType, Rows, require_row, rows_where, save_row, stage}

abbrev pub work_package_row_type : (WorkPackageRow → WorkPackageRow → Bool) → RowType WorkPackageRow
work_package_row_type differs = record {
  id_of = λ row. row.id;
  version_of = λ row. row.version;
  at_version = λ version row. record row { version = version };
  differs = differs;
}

-- Equality of the values of JSONB and nullable columns.
unfoldable pub lists_equal : {A : Type 0} → (A → A → Bool) → List A → List A → Bool
lists_equal eq [] [] = true
lists_equal eq [] (y ∷ ys) = false
lists_equal eq (x ∷ xs) [] = false
lists_equal eq (x ∷ xs) (y ∷ ys) = eq x y && lists_equal eq xs ys

unfoldable pub options_equal : {A : Type 0} → (A → A → Bool) → Option A → Option A → Bool
options_equal eq none none = true
options_equal eq none (some y) = false
options_equal eq (some x) none = false
options_equal eq (some x) (some y) = eq x y

unfoldable pub claims_equal : Claim → Claim → Bool
claims_equal a b =
    a.id == b.id && (str_eq a.claim_type b.claim_type && str_eq a.description b.description)

unfoldable pub guides_equal : VerificationGuide → VerificationGuide → Bool
guides_equal a b =
    lists_equal str_eq a.steps b.steps
    && (lists_equal str_eq a.endpoints b.endpoints
        && lists_equal str_eq a.expected_outputs b.expected_outputs)

-- `WORK_PACKAGE_CONTENT_COLUMNS`, each with the comparison of its values.
abbrev pub work_package_content_columns : List (String × (WorkPackageRow → WorkPackageRow → Bool))
work_package_content_columns =
    ("task_revision_id", λ a b. a.task_revision_id == b.task_revision_id)
    ∷ ("summary", λ a b. str_eq a.summary b.summary)
    ∷ ("claims", λ a b. lists_equal claims_equal a.claims b.claims)
    ∷ (
      "verification_guide",
      λ a b. options_equal guides_equal a.verification_guide b.verification_guide,
    )
    ∷ ("worker_notes", λ a b. lists_equal str_eq a.worker_notes b.worker_notes)
    ∷ ("risks", λ a b. options_equal str_eq a.risks b.risks)
    ∷ ("submitted_at", λ a b. options_equal ◌==◌ a.submitted_at b.submitted_at)
    ∷ []

abbrev pub Column : Type 0
Column = String × (WorkPackageRow → WorkPackageRow → Bool)

-- `_content_changes`
unfoldable pub content_changes : WorkPackage → WorkPackageRow → List String
content_changes work_package row =
    map (λ (c : Column). c.0)
      (filter (λ (c : Column). not (c.1 (to_work_package_row work_package) row))
        work_package_content_columns)

module _ (differs : WorkPackageRow → WorkPackageRow → Bool) where
  abbrev t : RowType WorkPackageRow
  t = work_package_row_type differs

  unfoldable pub add : WorkPackage → Rows WorkPackageRow → Result (Unit {0}) × Rows WorkPackageRow
  add work_package s = stage t (to_work_package_row work_package) s

  unfoldable pub get_by_id : ℕ → Rows WorkPackageRow → Result WorkPackage × Rows WorkPackageRow
  get_by_id work_package_id s =
      and_then (require_row t work_package_id s) (λ row u. (to_domain_work_package row, u))

  unfoldable pub get_by_task_revision :
      ℕ → Rows WorkPackageRow → Result WorkPackage × Rows WorkPackageRow
  get_by_task_revision task_revision_id s =
      first (rows_where t (λ row. row.task_revision_id == task_revision_id) (λ row. 0) s)
    where
      first : List WorkPackageRow × Rows WorkPackageRow → Result WorkPackage × Rows WorkPackageRow
      first ([], u) = (err Error.not_found, u)
      first (row ∷ rows, u) = (to_domain_work_package row, u)

  unfoldable pub save : WorkPackage → Rows WorkPackageRow → Result (Unit {0}) × Rows WorkPackageRow
  save work_package s = and_then (require_row t work_package.id s) (λ row u.
      let saved = save_row t row (apply_work_package work_package) u in
      if not (str_eq row.status (value_of WorkPackageStatus.draft))
        && not (is_empty (content_changes work_package row))
      then (err Error.append_only_violation, u)
      else saved)
