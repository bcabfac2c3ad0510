-- ===== src/Rules/Verification.antt =====
-- rules/verification.py: review and QA of the active Revision.
use ai_engineering_os.Base.{
  Bool, List, Option, [], any, filter, find, holds, if◌then◌else◌, is_empty, map, none, not, ok,
  same, some, ◌&&◌, ◌==◌, ◌∷◌, ◌>>=◌,
}
use ai_engineering_os.Domain.Enums.{
  EvidenceType, actor_role_enum, capability_type_enum, evidence_type_enum, feature_status_enum,
  initiator_enum, plan_status_enum, qa_status_enum, review_outcome_enum, task_status_enum,
  work_package_status_enum,
}
use ai_engineering_os.Domain.Conditions.{TransitionCondition, transition_condition_enum}
use ai_engineering_os.Domain.Task.{Task}
use ai_engineering_os.Domain.Task.Revision.{TaskRevision}
use ai_engineering_os.Domain.Qa.{QaReport, is_passed}
use ai_engineering_os.Domain.Evidence.{EvidenceRecord}
use ai_engineering_os.Domain.Decision.{ReviewDecision, is_approved}
use ai_engineering_os.Rules.Codes.{RuleCode, RuleId, RuleStage, rule_code_enum, rule_id_enum}
use ai_engineering_os.Rules.Facts.{RuleFact, rule_fact_enum}
use ai_engineering_os.Rules.Context.{require}
use ai_engineering_os.Rules.Results.{Finding, Rule, attributed, counts, ids, names}
use ai_engineering_os.Rules.Selection.{active_revision}

-- `_active_qa_report`, from the facts that it reads.
unfoldable pub report_of : Option TaskRevision → List QaReport → Option QaReport
unfolding find
report_of none reports = none
report_of (some revision) reports = find (λ r. holds r.task_revision_id revision.id) reports

unfoldable pub active_qa_report : Task → List TaskRevision → List QaReport → Option QaReport
unfolding active_revision report_of
active_qa_report task revisions reports = report_of (active_revision task revisions) reports

unfoldable pub review_finding : Task → List ReviewDecision → Option TaskRevision → Finding
unfolding filter any is_approved
review_finding task decisions none =
    Finding.violated RuleCode.no_active_revision (ids "task_id" (task.id ∷ []) ∷ [])
review_finding task decisions (some revision) =
    let recorded = filter (λ (d : ReviewDecision). d.task_revision_id == revision.id) decisions in
    if is_empty recorded
    then Finding.violated RuleCode.no_review_decision_recorded
        (ids "task_id" (task.id ∷ []) ∷ ids "task_revision_id" (revision.id ∷ []) ∷ [])
    else if not (any is_approved recorded)
    then Finding.violated RuleCode.review_changes_requested (
        ids "review_decision_ids" (map (λ (d : ReviewDecision). d.id) recorded)
        ∷ names "review_outcomes" (map (λ (d : ReviewDecision). d.outcome) recorded)
        ∷ ids "task_id" (task.id ∷ [])
        ∷ [])
    else Finding.satisfied

abbrev pub review_decision_approved_rule : Rule
review_decision_approved_rule = record {
  rule_id = RuleId.review_decision_approved;
  condition = TransitionCondition.review_decision_approved;
  stage = RuleStage.acceptance;
  required_facts = RuleFact.task ∷ RuleFact.task_revisions ∷ RuleFact.review_decisions ∷ [];
  requires = [];
  evaluate = λ context. do
    task ← require context.task
    revisions ← require context.task_revisions
    decisions ← require context.review_decisions
    ok (
        attributed RuleId.review_decision_approved TransitionCondition.review_decision_approved
          (review_finding task decisions (active_revision task revisions)));
}

unfoldable pub report_passed_finding : Task → Option QaReport → Finding
report_passed_finding task none = Finding.violated RuleCode.no_qa_report_for_revision (
    ids "task_id" (task.id ∷ [])
    ∷ counts "active_revision_number" (task.active_revision_number ∷ [])
    ∷ [])
report_passed_finding task (some report) =
    if not (is_passed report.status)
    then Finding.violated RuleCode.qa_report_did_not_pass (
        ids "qa_report_id" (report.id ∷ [])
        ∷ names "qa_status" (report.status ∷ [])
        ∷ ids "task_id" (task.id ∷ [])
        ∷ [])
    else Finding.satisfied

abbrev pub qa_report_passed_rule : Rule
qa_report_passed_rule = record {
  rule_id = RuleId.qa_report_passed;
  condition = TransitionCondition.qa_report_passed;
  stage = RuleStage.acceptance;
  required_facts = RuleFact.task ∷ RuleFact.task_revisions ∷ RuleFact.qa_reports ∷ [];
  requires = [];
  evaluate = λ context. do
    task ← require context.task
    revisions ← require context.task_revisions
    reports ← require context.qa_reports
    ok (
        attributed RuleId.qa_report_passed TransitionCondition.qa_report_passed
          (report_passed_finding task (active_qa_report task revisions reports)));
}

abbrev pub is_test_output_of : QaReport → EvidenceRecord → Bool
is_test_output_of report evidence =
    holds evidence.qa_report_id report.id && same evidence.evidence_type EvidenceType.test_output

unfoldable pub test_execution_finding : Task → List EvidenceRecord → Option QaReport → Finding
unfolding filter
test_execution_finding task evidence none =
    Finding.violated RuleCode.no_qa_report_for_revision (ids "task_id" (task.id ∷ []) ∷ [])
test_execution_finding task evidence (some report) =
    if is_empty report.results
    then Finding.violated RuleCode.no_test_results_recorded
        (ids "qa_report_id" (report.id ∷ []) ∷ ids "task_id" (task.id ∷ []) ∷ [])
    else if is_empty (filter (is_test_output_of report) evidence)
    then Finding.violated RuleCode.no_test_execution_evidence
        (ids "qa_report_id" (report.id ∷ []) ∷ ids "task_id" (task.id ∷ []) ∷ [])
    else Finding.satisfied

abbrev pub test_execution_evidence_present_rule : Rule
test_execution_evidence_present_rule = record {
  rule_id = RuleId.test_execution_evidence_present;
  condition = TransitionCondition.test_execution_evidence_present;
  stage = RuleStage.acceptance;
  required_facts =
      RuleFact.task ∷ RuleFact.task_revisions ∷ RuleFact.qa_reports ∷ RuleFact.evidence ∷ [];
  requires = RuleId.qa_report_passed ∷ [];
  evaluate = λ context. do
    task ← require context.task
    revisions ← require context.task_revisions
    reports ← require context.qa_reports
    evidence ← require context.evidence
    ok (
        attributed RuleId.test_execution_evidence_present
          TransitionCondition.test_execution_evidence_present
          (test_execution_finding task evidence (active_qa_report task revisions reports)));
}
