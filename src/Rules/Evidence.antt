-- ===== src/Rules/Evidence.antt =====
-- rules/evidence.py: the evidence standards of a Task and of a Feature.
pub mod Satisfied
use ai_engineering_os.Base.{
  Bool, List, Option, [], any, distinct, elem, filter, if◌then◌else◌, is_empty, map, none, not, ok,
  some, sorted, sorted_members, true, ℕ, ◌==◌, ◌∷◌, ◌>>=◌,
}
use ai_engineering_os.Domain.Enums.{
  CapabilityType, EvidenceType, actor_role_enum, capability_type_enum, evidence_type_enum,
  feature_status_enum, initiator_enum, plan_status_enum, qa_status_enum, review_outcome_enum,
  task_status_enum, work_package_status_enum,
}
use ai_engineering_os.Domain.Conditions.{TransitionCondition, transition_condition_enum}
use ai_engineering_os.Domain.Task.{Task}
use ai_engineering_os.Domain.Feature.{Feature}
use ai_engineering_os.Domain.Qa.{QaReport}
use ai_engineering_os.Domain.Evidence.{EvidenceRecord, is_system_evidence}
use ai_engineering_os.Rules.Codes.{RuleCode, RuleId, RuleStage, rule_code_enum, rule_id_enum}
use ai_engineering_os.Rules.Facts.{RuleFact, rule_fact_enum}
use ai_engineering_os.Rules.Context.{require}
use ai_engineering_os.Rules.Results.{Finding, Rule, attributed, counts, ids, names}
use ai_engineering_os.Rules.Selection.{current_round_reports}

-- `MANDATORY_SYSTEM_EVIDENCE.get(capability)`
unfoldable pub mandatory_system_evidence : CapabilityType → Option (List EvidenceType)
mandatory_system_evidence CapabilityType.backend =
    some (EvidenceType.git_diff ∷ EvidenceType.test_output ∷ EvidenceType.api_response ∷ [])
mandatory_system_evidence CapabilityType.frontend = none
mandatory_system_evidence CapabilityType.qa = none

-- The kinds of a list that no record in another list carries.
unfoldable pub missing_kinds : List EvidenceType → List EvidenceRecord → List EvidenceType
unfolding filter any
missing_kinds required records =
    filter (λ kind. not (elem kind (map (λ (r : EvidenceRecord). r.evidence_type) records)))
      required

unfoldable pub system_evidence_finding :
    Task → List EvidenceRecord → Option (List EvidenceType) → Finding
unfolding filter is_system_evidence missing_kinds
system_evidence_finding task evidence none = Finding.violated RuleCode.evidence_standard_undefined (
    names "capability" (task.capability ∷ [])
    ∷ names "defined_standards" (CapabilityType.backend ∷ [])
    ∷ ids "task_id" (task.id ∷ [])
    ∷ [])
system_evidence_finding task evidence (some required) =
    let absent = missing_kinds required (filter is_system_evidence evidence) in
    if not (is_empty absent)
    then Finding.violated RuleCode.missing_system_evidence (
        names "required_evidence" required
        ∷ names "missing_evidence" absent
        ∷ names "capability" (task.capability ∷ [])
        ∷ ids "task_id" (task.id ∷ [])
        ∷ [])
    else Finding.satisfied

abbrev pub system_evidence_required_rule : Rule
system_evidence_required_rule = record {
  rule_id = RuleId.system_evidence_required;
  condition = TransitionCondition.mandatory_system_evidence_attached;
  stage = RuleStage.evidence;
  required_facts = RuleFact.task ∷ RuleFact.evidence ∷ [];
  requires = [];
  evaluate = λ context. do
    task ← require context.task
    evidence ← require context.evidence
    ok (
        attributed RuleId.system_evidence_required
          TransitionCondition.mandatory_system_evidence_attached
          (system_evidence_finding task evidence (mandatory_system_evidence task.capability)));
}

abbrev pub feature_mandatory_evidence : List EvidenceType
feature_mandatory_evidence =
    EvidenceType.git_diff ∷ EvidenceType.test_output ∷ EvidenceType.reasoning ∷ []

-- `record.qa_report_id is None or record.qa_report_id in current`
abbrev pub in_closure : List QaReport → Option ℕ → Bool
in_closure current none = true
in_closure current (some report) = any (λ (r : QaReport). r.id == report) current

unfoldable pub evidence_closure :
    Feature → List QaReport → List EvidenceRecord → List EvidenceRecord
unfolding filter any current_round_reports
evidence_closure feature reports evidence =
    filter (λ r. in_closure (current_round_reports feature reports) r.qa_report_id) evidence

unfoldable pub feature_evidence_finding : Feature → List EvidenceRecord → List QaReport → Finding
unfolding evidence_closure missing_kinds distinct sorted
feature_evidence_finding feature evidence reports =
    let closure = evidence_closure feature reports evidence in
    let absent = missing_kinds feature_mandatory_evidence closure in
    if not (is_empty absent)
    then Finding.violated RuleCode.missing_feature_evidence (
        names "missing_evidence_types" absent
        ∷ names "required_evidence_types" feature_mandatory_evidence
        ∷ names "present_evidence_types"
            (sorted_members (distinct (map (λ (r : EvidenceRecord). r.evidence_type) closure)))
        ∷ counts "qa_round" (feature.qa_round ∷ [])
        ∷ ids "feature_id" (feature.id ∷ [])
        ∷ [])
    else Finding.satisfied

abbrev pub feature_evidence_required_rule : Rule
feature_evidence_required_rule = record {
  rule_id = RuleId.feature_evidence_present;
  condition = TransitionCondition.mandatory_evidence_present;
  stage = RuleStage.evidence;
  required_facts = RuleFact.feature ∷ RuleFact.evidence ∷ RuleFact.qa_reports ∷ [];
  requires = [];
  evaluate = λ context. do
    feature ← require context.feature
    evidence ← require context.evidence
    reports ← require context.qa_reports
    ok (
        attributed RuleId.feature_evidence_present TransitionCondition.mandatory_evidence_present
          (feature_evidence_finding feature evidence reports));
}
