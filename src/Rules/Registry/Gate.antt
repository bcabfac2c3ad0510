-- ===== src/Rules/Registry/Gate.antt =====
-- The import-time checks of rules/registry.py.
use ai_engineering_os.Base.{Bool, List, any, elem, false, is_ok, ok, refl, true, ℕ, ◌+◌, ◌≡◌}
use ai_engineering_os.Domain.Conditions.{TransitionCondition, transition_condition_enum}
use ai_engineering_os.Rules.Codes.{rule_code_enum, rule_id_enum}
use ai_engineering_os.Rules.Engine.{rule_engine}
use ai_engineering_os.Rules.Registry.{
  blocked_conditions, condition_classification, implemented_conditions, pending_rule_expansion,
  rules, satisfied_by_domain_invariant, the_rule_engine,
}

-- `RuleEngine(RULES)` raises nothing, and keeps the declaration order.
pub rule_engine-rules : rule_engine rules ≡ ok the_rule_engine
unfolding rule_engine
rule_engine-rules = refl

-- How many of the four sets hold a condition.
abbrev pub memberships : TransitionCondition → ℕ
memberships c =
    count c implemented_conditions
    + count c pending_rule_expansion
    + count c satisfied_by_domain_invariant
    + count c blocked_conditions
  where
    one : Bool → ℕ
    one true = 1
    one false = 0

    count : TransitionCondition → List TransitionCondition → ℕ
    count c xs = one (elem c xs)

-- The classification is a partition, as the import-time check demands: every condition is in exactly
-- one of the four sets, and `condition_classification` returns for it.
pub classification-total :
    (c : TransitionCondition) → (memberships c ≡ 1) × (is_ok (condition_classification c) ≡ true)
unfolding condition_classification any
classification-total TransitionCondition.feature_plan_attached = (refl, refl)
classification-total TransitionCondition.plan_has_task_definitions = (refl, refl)
classification-total TransitionCondition.plan_is_ready = (refl, refl)
classification-total TransitionCondition.plan_dependencies_valid = (refl, refl)
classification-total TransitionCondition.tasks_instantiated = (refl, refl)
classification-total TransitionCondition.all_implementation_tasks_accepted = (refl, refl)
classification-total TransitionCondition.all_tasks_accepted = (refl, refl)
classification-total TransitionCondition.qa_final_pass_recorded = (refl, refl)
classification-total TransitionCondition.zero_unresolved_in_scope_defects = (refl, refl)
classification-total TransitionCondition.mandatory_evidence_present = (refl, refl)
classification-total TransitionCondition.qa_defect_findings_recorded = (refl, refl)
classification-total TransitionCondition.task_has_dependencies = (refl, refl)
classification-total TransitionCondition.dependencies_accepted = (refl, refl)
classification-total TransitionCondition.originating_plan_active = (refl, refl)
classification-total TransitionCondition.worker_is_active = (refl, refl)
classification-total TransitionCondition.worker_capability_matches = (refl, refl)
classification-total TransitionCondition.requester_is_assigned_worker = (refl, refl)
classification-total TransitionCondition.work_package_present = (refl, refl)
classification-total TransitionCondition.claims_defined = (refl, refl)
classification-total TransitionCondition.mandatory_system_evidence_attached = (refl, refl)
classification-total TransitionCondition.verification_guide_present = (refl, refl)
classification-total TransitionCondition.reviewer_assigned = (refl, refl)
classification-total TransitionCondition.review_decision_approved = (refl, refl)
classification-total TransitionCondition.review_notes_present = (refl, refl)
classification-total TransitionCondition.review_decision_changes_requested = (refl, refl)
classification-total TransitionCondition.review_feedback_present = (refl, refl)
classification-total TransitionCondition.qa_report_passed = (refl, refl)
classification-total TransitionCondition.test_execution_evidence_present = (refl, refl)
classification-total TransitionCondition.qa_report_failed = (refl, refl)
classification-total TransitionCondition.defects_documented = (refl, refl)
classification-total TransitionCondition.incremented_revision_created = (refl, refl)
