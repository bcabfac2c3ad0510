-- ===== src/Domain/WorkPackage.antt =====
-- domain/work_package.py
use ai_engineering_os.Base.{
  Bool, Error, List, Option, Result, String, err, false, if◌then◌else◌, is_empty, is_some, map,
  no_duplicates, not, ok, some, true, ℕ, ◌&&◌, ◌==◌,
}
use ai_engineering_os.Domain.Enums.{
  WorkPackageStatus, actor_role_enum, capability_type_enum, evidence_type_enum, feature_status_enum,
  initiator_enum, plan_status_enum, task_status_enum, work_package_status_enum,
}

pub record Claim : Type 0 where
  pub id : ℕ
  pub claim_type : String
  pub description : String

pub record VerificationGuide : Type 0 where
  pub steps : List String
  pub endpoints : List String
  pub expected_outputs : List String

pub record WorkPackage : Type 0 where
  pub id : ℕ
  pub task_revision_id : ℕ
  pub summary : String
  pub status : WorkPackageStatus
  pub claims : List Claim
  pub verification_guide : Option VerificationGuide
  pub worker_notes : List String
  pub risks : Option String
  pub submitted_at : Option ℕ

abbrev pub is_draft_status : WorkPackageStatus → Bool
is_draft_status WorkPackageStatus.draft = true
is_draft_status _ = false

-- `_submitted_package_must_be_complete`
unfoldable pub submitted_is_complete : WorkPackage → Bool
submitted_is_complete work_package =
    if is_draft_status work_package.status
    then not (is_some work_package.submitted_at)
    else not (is_empty work_package.claims)
      && (is_some work_package.verification_guide && is_some work_package.submitted_at)

unfoldable pub is_valid_package : WorkPackage → Bool
unfolding no_duplicates submitted_is_complete
is_valid_package work_package =
    no_duplicates ◌==◌ (map (λ (c : Claim). c.id) work_package.claims)
    && submitted_is_complete work_package

unfoldable pub validated_package : WorkPackage → Result WorkPackage
validated_package work_package =
    if is_valid_package work_package then ok work_package else err Error.validation

unfoldable pub is_draft : WorkPackage → Bool
is_draft work_package = is_draft_status work_package.status

unfoldable pub is_immutable : WorkPackage → Bool
unfolding is_draft
is_immutable work_package = not (is_draft work_package)

-- The keyword arguments of `revise_draft` are a change of the recorded fields and whether `status`
-- is one of the keywords.
unfoldable pub revise_draft : WorkPackage → (WorkPackage → WorkPackage) → Bool → Result WorkPackage
unfolding is_immutable validated_package
revise_draft work_package changes names_status =
    if is_immutable work_package
    then err Error.immutable_record
    else if names_status
    then err Error.immutable_record
    else validated_package (changes work_package)

unfoldable pub package_with_status : WorkPackage → WorkPackageStatus → Result WorkPackage
unfolding validated_package
package_with_status work_package status =
    validated_package (record work_package { status = status })

unfoldable pub submit : WorkPackage → ℕ → Result WorkPackage
unfolding is_immutable validated_package
submit work_package at =
    if is_immutable work_package
    then err Error.immutable_record
    else validated_package
        (record work_package { status = WorkPackageStatus.submitted; submitted_at = some at })
