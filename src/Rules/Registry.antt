-- ===== src/Rules/Registry.antt =====
-- rules/registry.py: the registered rules, and the classification of the conditions.
pub mod Sound
pub mod Gate
use ai_engineering_os.Base.{Error, List, Result, [], any, elem, err, if◌then◌else◌, map, ok, ◌∷◌}
use ai_engineering_os.Domain.Conditions.{TransitionCondition, transition_condition_enum}
use ai_engineering_os.Rules.Results.{Rule}
use ai_engineering_os.Rules.Engine.{RuleEngine}
use ai_engineering_os.Rules.Authority.{
  requester_is_assigned_worker_rule, reviewer_assigned_rule, worker_capability_matches_rule,
  worker_is_active_rule,
}
use ai_engineering_os.Rules.Dependencies.{dependencies_accepted_rule}
use ai_engineering_os.Rules.Planning.{
  feature_plan_attached_rule, originating_plan_active_rule, plan_has_task_definitions_rule,
  plan_is_ready_rule,
}
use ai_engineering_os.Rules.Submission.{
  claims_defined_rule, verification_guide_present_rule, work_package_present_rule,
}
use ai_engineering_os.Rules.Evidence.{feature_evidence_required_rule, system_evidence_required_rule}
use ai_engineering_os.Rules.Verification.{
  qa_report_passed_rule, review_decision_approved_rule, test_execution_evidence_present_rule,
}
use ai_engineering_os.Rules.Acceptance.{
  all_tasks_accepted_rule, implementation_tasks_accepted_rule, qa_final_pass_recorded_rule,
}
use ai_engineering_os.Rules.Acceptance.Defects.{qa_in_scope_zero_defects_rule}

abbrev pub rules : List Rule
rules =
    worker_is_active_rule ∷ worker_capability_matches_rule ∷ requester_is_assigned_worker_rule
    ∷ reviewer_assigned_rule ∷ feature_plan_attached_rule ∷ plan_has_task_definitions_rule
    ∷ plan_is_ready_rule ∷ originating_plan_active_rule ∷ dependencies_accepted_rule
    ∷ work_package_present_rule ∷ claims_defined_rule ∷ verification_guide_present_rule
    ∷ system_evidence_required_rule ∷ feature_evidence_required_rule ∷ review_decision_approved_rule
    ∷ qa_report_passed_rule ∷ test_execution_evidence_present_rule
    ∷ implementation_tasks_accepted_rule ∷ all_tasks_accepted_rule ∷ qa_final_pass_recorded_rule
    ∷ qa_in_scope_zero_defects_rule ∷ []

-- `RULE_ENGINE`: the rules in evaluation order, which is their declaration order.
abbrev pub the_rule_engine : RuleEngine
the_rule_engine = record { rules = rules }

-- `IMPLEMENTED_CONDITIONS`
abbrev pub implemented_conditions : List TransitionCondition
implemented_conditions = map (λ (rule : Rule). rule.condition) rules

abbrev pub pending_rule_expansion : List TransitionCondition
pending_rule_expansion =
    TransitionCondition.task_has_dependencies
    ∷ TransitionCondition.review_decision_changes_requested ∷ TransitionCondition.qa_report_failed
    ∷ TransitionCondition.incremented_revision_created
    ∷ TransitionCondition.qa_defect_findings_recorded ∷ []

abbrev pub satisfied_by_domain_invariant : List TransitionCondition
satisfied_by_domain_invariant =
    TransitionCondition.plan_dependencies_valid ∷ TransitionCondition.review_notes_present
    ∷ TransitionCondition.review_feedback_present ∷ TransitionCondition.defects_documented ∷ []

abbrev pub blocked_conditions : List TransitionCondition
blocked_conditions = TransitionCondition.tasks_instantiated ∷ []

abbrev pub foundation_v1_required_conditions : List TransitionCondition
foundation_v1_required_conditions =
    TransitionCondition.feature_plan_attached ∷ TransitionCondition.plan_has_task_definitions
    ∷ TransitionCondition.plan_is_ready ∷ TransitionCondition.tasks_instantiated
    ∷ TransitionCondition.plan_dependencies_valid ∷ TransitionCondition.dependencies_accepted
    ∷ TransitionCondition.originating_plan_active ∷ TransitionCondition.worker_is_active
    ∷ TransitionCondition.worker_capability_matches
    ∷ TransitionCondition.requester_is_assigned_worker ∷ TransitionCondition.work_package_present
    ∷ TransitionCondition.claims_defined ∷ TransitionCondition.mandatory_system_evidence_attached
    ∷ TransitionCondition.verification_guide_present ∷ TransitionCondition.reviewer_assigned
    ∷ TransitionCondition.review_decision_approved ∷ TransitionCondition.review_notes_present
    ∷ TransitionCondition.qa_report_passed ∷ TransitionCondition.test_execution_evidence_present
    ∷ TransitionCondition.all_implementation_tasks_accepted ∷ TransitionCondition.all_tasks_accepted
    ∷ TransitionCondition.qa_final_pass_recorded
    ∷ TransitionCondition.zero_unresolved_in_scope_defects
    ∷ TransitionCondition.mandatory_evidence_present ∷ []

pub data Classification : Type 0 where
  implemented pending satisfied_by_invariant blocked : Classification

-- `condition_classification`: the first of the four sets that holds the condition.
unfoldable pub condition_classification : TransitionCondition → Result Classification
unfolding any
condition_classification condition =
    if elem condition implemented_conditions
    then ok Classification.implemented
    else if elem condition pending_rule_expansion
    then ok Classification.pending
    else if elem condition satisfied_by_domain_invariant
    then ok Classification.satisfied_by_invariant
    else if elem condition blocked_conditions
    then ok Classification.blocked
    else err Error.rule_definition
