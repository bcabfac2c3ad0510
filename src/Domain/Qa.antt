-- ===== src/Domain/Qa.antt =====
-- domain/qa.py: QA Reports, test results and defects.
use ai_engineering_os.Base.{
  Bool, List, Option, String, false, filter, is_empty, is_some, leb, map, no_duplicates, not, true,
  ℕ, ◌&&◌, ◌==◌, ◌||◌,
}
use ai_engineering_os.Domain.Enums.{
  DefectStatus, QaStatus, actor_role_enum, capability_type_enum, evidence_type_enum,
  feature_status_enum, initiator_enum, plan_status_enum, task_status_enum, work_package_status_enum,
}

pub record TestResult : Type 0 where
  pub name : String
  pub passed : Bool
  pub details : Option String

pub record QaDefect : Type 0 where
  pub id : ℕ
  pub title : String
  pub severity : String
  pub priority : String
  pub is_blocker : Bool
  pub status : DefectStatus
  pub scope_task_id : Option ℕ
  pub scope_feature_id : Option ℕ

-- `_scope_association_must_be_singular`
unfoldable pub is_valid_defect : QaDefect → Bool
is_valid_defect defect = not (is_some defect.scope_task_id && is_some defect.scope_feature_id)

abbrev pub is_open : DefectStatus → Bool
is_open DefectStatus.opened = true
is_open DefectStatus.resolved = false

unfoldable pub is_unresolved : QaDefect → Bool
is_unresolved defect = is_open defect.status

pub record QaReport : Type 0 where
  pub id : ℕ
  pub feature_id : ℕ
  pub status : QaStatus
  pub qa_round : ℕ
  pub task_revision_id : Option ℕ
  pub is_final_pass : Bool
  pub tested_scope : List String
  pub results : List TestResult
  pub defects : List QaDefect
  pub evidence_ids : List ℕ
  pub created_at : ℕ

unfoldable pub unresolved_defects : QaReport → List QaDefect
unfolding filter is_unresolved
unresolved_defects report = filter is_unresolved report.defects

unfoldable pub blocking_defects : QaReport → List QaDefect
unfolding filter unresolved_defects
blocking_defects report = filter (λ d. d.is_blocker) (unresolved_defects report)

-- `_status_must_match_findings`
unfoldable pub status_matches_findings : QaStatus → QaReport → Bool
unfolding unresolved_defects blocking_defects
status_matches_findings QaStatus.passed report = is_empty (unresolved_defects report)
status_matches_findings QaStatus.failed report = not (is_empty report.defects)
status_matches_findings QaStatus.blocked report = not (is_empty (blocking_defects report))

unfoldable pub is_valid_report : QaReport → Bool
unfolding no_duplicates status_matches_findings
is_valid_report report =
    leb 1 report.qa_round
    && (no_duplicates ◌==◌ (map (λ (d : QaDefect). d.id) report.defects)
        && (no_duplicates ◌==◌ report.evidence_ids
            && (status_matches_findings report.status report
                && not (
                    report.is_final_pass
                    && (is_empty report.tested_scope || is_empty report.results)))))

abbrev pub is_passed : QaStatus → Bool
is_passed QaStatus.passed = true
is_passed QaStatus.failed = false
is_passed QaStatus.blocked = false

unfoldable pub is_valid_final_pass : QaReport → Bool
unfolding unresolved_defects
is_valid_final_pass report =
    report.is_final_pass && (is_passed report.status && is_empty (unresolved_defects report))
