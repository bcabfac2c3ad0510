-- ===== src/Rules/Acceptance.antt =====
-- rules/acceptance.py: the Feature gates.
pub mod Defects
use ai_engineering_os.Base.{
  Bool, List, [], filter, if◌then◌else◌, is_empty, length, map, not, ok, same, ◌&&◌, ◌++◌, ◌==◌,
  ◌∷◌, ◌>>=◌, ◌>>◌,
}
use ai_engineering_os.Domain.Enums.{
  CapabilityType, actor_role_enum, capability_type_enum, evidence_type_enum, feature_status_enum,
  initiator_enum, plan_status_enum, qa_status_enum, review_outcome_enum, task_status_enum,
  work_package_status_enum,
}
use ai_engineering_os.Domain.Conditions.{TransitionCondition, transition_condition_enum}
use ai_engineering_os.Domain.Task.{Task}
use ai_engineering_os.Domain.Feature.{Feature}
use ai_engineering_os.Domain.Qa.{QaReport, is_valid_final_pass, unresolved_defects}
use ai_engineering_os.Rules.Codes.{RuleCode, RuleId, RuleStage, rule_code_enum, rule_id_enum}
use ai_engineering_os.Rules.Facts.{RuleFact, rule_fact_enum}
use ai_engineering_os.Rules.Context.{require}
use ai_engineering_os.Rules.Results.{Finding, Rule, RuleDetail, attributed, counts, ids, names}
use ai_engineering_os.Rules.Selection.{current_round_reports}
use ai_engineering_os.Rules.Dependencies.{is_accepted}

-- The details that both task gates report.
abbrev task_details : List Task → List RuleDetail
task_details unaccepted =
    ids "unaccepted_task_ids" (map (λ (t : Task). t.id) unaccepted)
    ∷ names "unaccepted_task_statuses" (map (λ (t : Task). t.status) unaccepted)
    ∷ []

abbrev pub is_implementation_of : Feature → Task → Bool
is_implementation_of feature task =
    task.feature_id == feature.id && not (same task.capability CapabilityType.qa)

unfoldable pub implementation_tasks_finding : Feature → List Task → Finding
unfolding filter
implementation_tasks_finding feature tasks =
    let implementation = filter (is_implementation_of feature) tasks in
    let unaccepted = filter (λ t. not (is_accepted t)) implementation in
    if is_empty implementation
    then Finding.violated RuleCode.no_implementation_tasks_recorded
        (ids "feature_id" (feature.id ∷ []) ∷ [])
    else if not (is_empty unaccepted)
    then Finding.violated RuleCode.implementation_task_not_accepted (
        task_details unaccepted
        ++ names "unaccepted_task_capabilities" (map (λ (t : Task). t.capability) unaccepted)
          ∷ ids "feature_id" (feature.id ∷ [])
          ∷ [])
    else Finding.satisfied

abbrev pub implementation_tasks_accepted_rule : Rule
implementation_tasks_accepted_rule = record {
  rule_id = RuleId.implementation_tasks_accepted;
  condition = TransitionCondition.all_implementation_tasks_accepted;
  stage = RuleStage.acceptance;
  required_facts = RuleFact.feature ∷ RuleFact.feature_tasks ∷ [];
  requires = [];
  evaluate = λ context. do
    feature ← require context.feature
    tasks ← require context.feature_tasks
    ok (
        attributed RuleId.implementation_tasks_accepted
          TransitionCondition.all_implementation_tasks_accepted
          (implementation_tasks_finding feature tasks));
}

unfoldable pub all_tasks_finding : Feature → List Task → Finding
unfolding filter
all_tasks_finding feature recorded =
    let tasks = filter (λ (t : Task). t.feature_id == feature.id) recorded in
    let unaccepted = filter (λ t. not (is_accepted t)) tasks in
    if is_empty tasks
    then Finding.violated RuleCode.no_tasks_recorded (ids "feature_id" (feature.id ∷ []) ∷ [])
    else if not (is_empty unaccepted)
    then Finding.violated RuleCode.task_not_accepted
        (task_details unaccepted ++ ids "feature_id" (feature.id ∷ []) ∷ [])
    else Finding.satisfied

abbrev pub all_tasks_accepted_rule : Rule
all_tasks_accepted_rule = record {
  rule_id = RuleId.all_tasks_accepted;
  condition = TransitionCondition.all_tasks_accepted;
  stage = RuleStage.acceptance;
  required_facts = RuleFact.feature ∷ RuleFact.feature_tasks ∷ [];
  requires = [];
  evaluate = λ context. do
    feature ← require context.feature
    tasks ← require context.feature_tasks
    ok (
        attributed RuleId.all_tasks_accepted TransitionCondition.all_tasks_accepted
          (all_tasks_finding feature tasks));
}

unfoldable pub final_pass_finding : Feature → List QaReport → Finding
unfolding filter current_round_reports is_valid_final_pass unresolved_defects
final_pass_finding feature reports =
    let final_passes =
      filter (λ (r : QaReport). r.is_final_pass) (current_round_reports feature reports) in
    if is_empty final_passes
    then Finding.violated RuleCode.missing_qa_final_pass (ids "feature_id" (feature.id ∷ []) ∷ [])
    else if is_empty (filter is_valid_final_pass final_passes)
    then Finding.violated RuleCode.invalid_qa_final_pass (
        ids "qa_report_ids" (map (λ (r : QaReport). r.id) final_passes)
        ∷ names "qa_report_statuses" (map (λ (r : QaReport). r.status) final_passes)
        ∷ counts "unresolved_defect_counts" (map (λ r. length (unresolved_defects r)) final_passes)
        ∷ ids "feature_id" (feature.id ∷ [])
        ∷ [])
    else Finding.satisfied

abbrev pub qa_final_pass_recorded_rule : Rule
qa_final_pass_recorded_rule = record {
  rule_id = RuleId.qa_final_pass_recorded;
  condition = TransitionCondition.qa_final_pass_recorded;
  stage = RuleStage.acceptance;
  required_facts = RuleFact.feature ∷ RuleFact.qa_reports ∷ [];
  requires = [];
  evaluate = λ context. do
    feature ← require context.feature
    reports ← require context.qa_reports
    ok (
        attributed RuleId.qa_final_pass_recorded TransitionCondition.qa_final_pass_recorded
          (final_pass_finding feature reports));
}
