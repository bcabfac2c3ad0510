-- ===== src/Rules/Codes.antt =====
-- rules/codes.py: the stable vocabulary of rule identifiers, failure codes and stages.
mod Failure
pub use Failure.*
use ai_engineering_os.Base.{ℕ, String, ◌≡◌, refl, some, List, [], ◌∷◌, get_elem?, StrEnum}

pub data RuleId : Type 0 where
  worker_capability_matches worker_is_active requester_is_assigned_worker : RuleId
  reviewer_assigned feature_plan_attached plan_has_task_definitions plan_is_ready : RuleId
  originating_plan_active dependencies_accepted work_package_present claims_defined : RuleId
  verification_guide_present system_evidence_required feature_evidence_present : RuleId
  review_decision_approved qa_report_passed test_execution_evidence_present : RuleId
  implementation_tasks_accepted all_tasks_accepted qa_final_pass_recorded : RuleId
  qa_in_scope_zero_defects : RuleId

abbrev rule_id_members : List RuleId
rule_id_members =
    RuleId.worker_capability_matches ∷ RuleId.worker_is_active ∷ RuleId.requester_is_assigned_worker
    ∷ RuleId.reviewer_assigned ∷ RuleId.feature_plan_attached ∷ RuleId.plan_has_task_definitions
    ∷ RuleId.plan_is_ready ∷ RuleId.originating_plan_active ∷ RuleId.dependencies_accepted
    ∷ RuleId.work_package_present ∷ RuleId.claims_defined ∷ RuleId.verification_guide_present
    ∷ RuleId.system_evidence_required ∷ RuleId.feature_evidence_present
    ∷ RuleId.review_decision_approved ∷ RuleId.qa_report_passed
    ∷ RuleId.test_execution_evidence_present ∷ RuleId.implementation_tasks_accepted
    ∷ RuleId.all_tasks_accepted ∷ RuleId.qa_final_pass_recorded ∷ RuleId.qa_in_scope_zero_defects
    ∷ []

abbrev rule_id_index : RuleId → ℕ
rule_id_index RuleId.worker_capability_matches = 0
rule_id_index RuleId.worker_is_active = 1
rule_id_index RuleId.requester_is_assigned_worker = 2
rule_id_index RuleId.reviewer_assigned = 3
rule_id_index RuleId.feature_plan_attached = 4
rule_id_index RuleId.plan_has_task_definitions = 5
rule_id_index RuleId.plan_is_ready = 6
rule_id_index RuleId.originating_plan_active = 7
rule_id_index RuleId.dependencies_accepted = 8
rule_id_index RuleId.work_package_present = 9
rule_id_index RuleId.claims_defined = 10
rule_id_index RuleId.verification_guide_present = 11
rule_id_index RuleId.system_evidence_required = 12
rule_id_index RuleId.feature_evidence_present = 13
rule_id_index RuleId.review_decision_approved = 14
rule_id_index RuleId.qa_report_passed = 15
rule_id_index RuleId.test_execution_evidence_present = 16
rule_id_index RuleId.implementation_tasks_accepted = 17
rule_id_index RuleId.all_tasks_accepted = 18
rule_id_index RuleId.qa_final_pass_recorded = 19
rule_id_index RuleId.qa_in_scope_zero_defects = 20

abbrev rule_id_label : RuleId → String
rule_id_label RuleId.worker_capability_matches = "worker_capability_matches"
rule_id_label RuleId.worker_is_active = "worker_is_active"
rule_id_label RuleId.requester_is_assigned_worker = "requester_is_assigned_worker"
rule_id_label RuleId.reviewer_assigned = "reviewer_assigned"
rule_id_label RuleId.feature_plan_attached = "feature_plan_attached"
rule_id_label RuleId.plan_has_task_definitions = "plan_has_task_definitions"
rule_id_label RuleId.plan_is_ready = "plan_is_ready"
rule_id_label RuleId.originating_plan_active = "originating_plan_active"
rule_id_label RuleId.dependencies_accepted = "dependencies_accepted"
rule_id_label RuleId.work_package_present = "work_package_present"
rule_id_label RuleId.claims_defined = "claims_defined"
rule_id_label RuleId.verification_guide_present = "verification_guide_present"
rule_id_label RuleId.system_evidence_required = "system_evidence_required"
rule_id_label RuleId.feature_evidence_present = "feature_evidence_present"
rule_id_label RuleId.review_decision_approved = "review_decision_approved"
rule_id_label RuleId.qa_report_passed = "qa_report_passed"
rule_id_label RuleId.test_execution_evidence_present = "test_execution_evidence_present"
rule_id_label RuleId.implementation_tasks_accepted = "implementation_tasks_accepted"
rule_id_label RuleId.all_tasks_accepted = "all_tasks_accepted"
rule_id_label RuleId.qa_final_pass_recorded = "qa_final_pass_recorded"
rule_id_label RuleId.qa_in_scope_zero_defects = "qa_in_scope_zero_defects"

pub rule_id_index_members : (a : RuleId) → get_elem? rule_id_members (rule_id_index a) ≡ some a
rule_id_index_members RuleId.worker_capability_matches = refl
rule_id_index_members RuleId.worker_is_active = refl
rule_id_index_members RuleId.requester_is_assigned_worker = refl
rule_id_index_members RuleId.reviewer_assigned = refl
rule_id_index_members RuleId.feature_plan_attached = refl
rule_id_index_members RuleId.plan_has_task_definitions = refl
rule_id_index_members RuleId.plan_is_ready = refl
rule_id_index_members RuleId.originating_plan_active = refl
rule_id_index_members RuleId.dependencies_accepted = refl
rule_id_index_members RuleId.work_package_present = refl
rule_id_index_members RuleId.claims_defined = refl
rule_id_index_members RuleId.verification_guide_present = refl
rule_id_index_members RuleId.system_evidence_required = refl
rule_id_index_members RuleId.feature_evidence_present = refl
rule_id_index_members RuleId.review_decision_approved = refl
rule_id_index_members RuleId.qa_report_passed = refl
rule_id_index_members RuleId.test_execution_evidence_present = refl
rule_id_index_members RuleId.implementation_tasks_accepted = refl
rule_id_index_members RuleId.all_tasks_accepted = refl
rule_id_index_members RuleId.qa_final_pass_recorded = refl
rule_id_index_members RuleId.qa_in_scope_zero_defects = refl

instance abbrev pub rule_id_enum : StrEnum RuleId
rule_id_enum = record {
  members = rule_id_members;
  index = rule_id_index;
  label = rule_id_label;
  index_members = rule_id_index_members;
}

-- An `IntEnum`: compared by its number.
pub data RuleStage : Type 0 where
  actor_authority state_transition plan_dependency evidence acceptance : RuleStage

unfoldable pub stage_number : RuleStage → ℕ
stage_number RuleStage.actor_authority = 1
stage_number RuleStage.state_transition = 2
stage_number RuleStage.plan_dependency = 3
stage_number RuleStage.evidence = 4
stage_number RuleStage.acceptance = 5
