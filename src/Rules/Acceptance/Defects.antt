-- ===== src/Rules/Acceptance/Defects.antt =====
-- rules/acceptance.py: no unresolved defect may resolve to the Feature under acceptance.
use ai_engineering_os.Base.{
  Bool, List, Option, [], false, filter, holds, if◌then◌else◌, is_empty, is_some, map, none, not,
  ok, some, true, ℕ, ◌&&◌, ◌++◌, ◌==◌, ◌∷◌, ◌>>=◌,
}
use ai_engineering_os.Domain.Enums.{
  actor_role_enum, capability_type_enum, evidence_type_enum, feature_status_enum, initiator_enum,
  plan_status_enum, qa_status_enum, review_outcome_enum, task_status_enum, work_package_status_enum,
}
use ai_engineering_os.Domain.Conditions.{TransitionCondition, transition_condition_enum}
use ai_engineering_os.Domain.Task.{Task}
use ai_engineering_os.Domain.Feature.{Feature}
use ai_engineering_os.Domain.Qa.{QaDefect, QaReport, unresolved_defects}
use ai_engineering_os.Rules.Codes.{RuleCode, RuleId, RuleStage, rule_code_enum, rule_id_enum}
use ai_engineering_os.Rules.Facts.{RuleFact, rule_fact_enum}
use ai_engineering_os.Rules.Context.{require}
use ai_engineering_os.Rules.Results.{Finding, Rule, attributed, counts, ids, texts}
use ai_engineering_os.Rules.Selection.{current_round_reports}
use ai_engineering_os.Rules.Dependencies.{known_task}

abbrev feature_scope_missing : Option ℕ → Bool
feature_scope_missing none = true
feature_scope_missing (some id) = false

-- `_is_scope_unresolved`
unfoldable pub is_scope_unresolved : List Task → Option ℕ → Option ℕ → Bool
unfolding known_task
is_scope_unresolved known (some task_id) scope_feature = not (is_some (known_task known task_id))
is_scope_unresolved known none scope_feature = feature_scope_missing scope_feature

abbrev belongs : ℕ → Option Task → Bool
belongs feature_id none = false
belongs feature_id (some task) = task.feature_id == feature_id

-- `_resolves_to_feature`; its lookup of the Task is made where the scope has been resolved.
unfoldable pub resolves_to_feature : List Task → ℕ → Option ℕ → Option ℕ → Bool
unfolding known_task
resolves_to_feature known feature_id (some task_id) scope_feature =
    belongs feature_id (known_task known task_id)
resolves_to_feature known feature_id none scope_feature = holds scope_feature feature_id

-- The defects of the reports, in order, that `keep` takes among the unresolved ones.
unfoldable pub open_defects : (QaDefect → Bool) → List QaReport → List QaDefect
unfolding filter unresolved_defects
open_defects keep [] = []
open_defects keep (report ∷ rest) =
    filter keep (unresolved_defects report) ++ open_defects keep rest

abbrev pub scope_is_open : List Task → QaDefect → Bool
scope_is_open known d = is_scope_unresolved known d.scope_task_id d.scope_feature_id

abbrev pub is_blocking : List Task → ℕ → QaDefect → Bool
is_blocking known feature_id d =
    not (scope_is_open known d)
    && resolves_to_feature known feature_id d.scope_task_id d.scope_feature_id

unfoldable pub zero_defects_finding : Feature → List QaReport → List Task → Finding
unfolding current_round_reports open_defects is_scope_unresolved resolves_to_feature
zero_defects_finding feature reports known =
    let current = current_round_reports feature reports in
    let unresolved_scope = open_defects (scope_is_open known) current in
    let blocking = open_defects (is_blocking known feature.id) current in
    let details =
      ids "scope_unresolved_defect_ids" (map (λ (d : QaDefect). d.id) unresolved_scope)
      ∷ texts "scope_unresolved_defect_titles" (map (λ (d : QaDefect). d.title) unresolved_scope)
      ∷ ids "in_scope_defect_ids" (map (λ (d : QaDefect). d.id) blocking)
      ∷ texts "in_scope_defect_titles" (map (λ (d : QaDefect). d.title) blocking)
      ∷ counts "qa_round" (feature.qa_round ∷ [])
      ∷ ids "feature_id" (feature.id ∷ [])
      ∷ [] in
    if not (is_empty unresolved_scope)
    then Finding.violated RuleCode.defect_scope_unresolved details
    else if not (is_empty blocking)
    then Finding.violated RuleCode.unresolved_in_scope_defect details
    else Finding.satisfied

abbrev pub qa_in_scope_zero_defects_rule : Rule
qa_in_scope_zero_defects_rule = record {
  rule_id = RuleId.qa_in_scope_zero_defects;
  condition = TransitionCondition.zero_unresolved_in_scope_defects;
  stage = RuleStage.acceptance;
  required_facts =
      RuleFact.feature ∷ RuleFact.qa_reports ∷ RuleFact.feature_tasks ∷ RuleFact.referenced_tasks
      ∷ [];
  requires = RuleId.qa_final_pass_recorded ∷ [];
  evaluate = λ context. do
    feature ← require context.feature
    reports ← require context.qa_reports
    feature_tasks ← require context.feature_tasks
    referenced_tasks ← require context.referenced_tasks
    ok (
        attributed RuleId.qa_in_scope_zero_defects
          TransitionCondition.zero_unresolved_in_scope_defects
          (zero_defects_finding feature reports (feature_tasks ++ referenced_tasks)));
}
