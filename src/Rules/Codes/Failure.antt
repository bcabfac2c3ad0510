-- ===== src/Rules/Codes/Failure.antt =====
-- rules/codes.py: the stable failure codes.
use ai_engineering_os.Base.{ℕ, String, ◌≡◌, refl, some, List, [], ◌∷◌, get_elem?, StrEnum}

pub data RuleCode : Type 0 where
  worker_capability_mismatch worker_inactive actor_is_not_a_worker : RuleCode
  requester_is_not_the_assigned_worker task_has_no_assigned_worker no_reviewer_routed : RuleCode
  reviewer_not_eligible reviewer_capability_mismatch reviewer_performed_the_work : RuleCode
  no_feature_plan_attached plan_defines_no_tasks plan_not_ready : RuleCode
  originating_plan_not_supplied originating_plan_not_active no_active_revision : RuleCode
  no_work_package_submitted no_claims_declared no_verification_guide : RuleCode
  missing_feature_evidence no_review_decision_recorded review_changes_requested : RuleCode
  no_qa_report_for_revision qa_report_did_not_pass no_test_results_recorded : RuleCode
  no_test_execution_evidence implementation_task_not_accepted : RuleCode
  no_implementation_tasks_recorded dependency_not_accepted dependency_facts_missing : RuleCode
  missing_system_evidence evidence_standard_undefined task_not_accepted : RuleCode
  no_tasks_recorded missing_qa_final_pass invalid_qa_final_pass : RuleCode
  unresolved_in_scope_defect defect_scope_unresolved : RuleCode

abbrev rule_code_members : List RuleCode
rule_code_members =
    RuleCode.worker_capability_mismatch ∷ RuleCode.worker_inactive ∷ RuleCode.actor_is_not_a_worker
    ∷ RuleCode.requester_is_not_the_assigned_worker ∷ RuleCode.task_has_no_assigned_worker
    ∷ RuleCode.no_reviewer_routed ∷ RuleCode.reviewer_not_eligible
    ∷ RuleCode.reviewer_capability_mismatch ∷ RuleCode.reviewer_performed_the_work
    ∷ RuleCode.no_feature_plan_attached ∷ RuleCode.plan_defines_no_tasks ∷ RuleCode.plan_not_ready
    ∷ RuleCode.originating_plan_not_supplied ∷ RuleCode.originating_plan_not_active
    ∷ RuleCode.no_active_revision ∷ RuleCode.no_work_package_submitted ∷ RuleCode.no_claims_declared
    ∷ RuleCode.no_verification_guide ∷ RuleCode.missing_feature_evidence
    ∷ RuleCode.no_review_decision_recorded ∷ RuleCode.review_changes_requested
    ∷ RuleCode.no_qa_report_for_revision ∷ RuleCode.qa_report_did_not_pass
    ∷ RuleCode.no_test_results_recorded ∷ RuleCode.no_test_execution_evidence
    ∷ RuleCode.implementation_task_not_accepted ∷ RuleCode.no_implementation_tasks_recorded
    ∷ RuleCode.dependency_not_accepted ∷ RuleCode.dependency_facts_missing
    ∷ RuleCode.missing_system_evidence ∷ RuleCode.evidence_standard_undefined
    ∷ RuleCode.task_not_accepted ∷ RuleCode.no_tasks_recorded ∷ RuleCode.missing_qa_final_pass
    ∷ RuleCode.invalid_qa_final_pass ∷ RuleCode.unresolved_in_scope_defect
    ∷ RuleCode.defect_scope_unresolved ∷ []

abbrev rule_code_index : RuleCode → ℕ
rule_code_index RuleCode.worker_capability_mismatch = 0
rule_code_index RuleCode.worker_inactive = 1
rule_code_index RuleCode.actor_is_not_a_worker = 2
rule_code_index RuleCode.requester_is_not_the_assigned_worker = 3
rule_code_index RuleCode.task_has_no_assigned_worker = 4
rule_code_index RuleCode.no_reviewer_routed = 5
rule_code_index RuleCode.reviewer_not_eligible = 6
rule_code_index RuleCode.reviewer_capability_mismatch = 7
rule_code_index RuleCode.reviewer_performed_the_work = 8
rule_code_index RuleCode.no_feature_plan_attached = 9
rule_code_index RuleCode.plan_defines_no_tasks = 10
rule_code_index RuleCode.plan_not_ready = 11
rule_code_index RuleCode.originating_plan_not_supplied = 12
rule_code_index RuleCode.originating_plan_not_active = 13
rule_code_index RuleCode.no_active_revision = 14
rule_code_index RuleCode.no_work_package_submitted = 15
rule_code_index RuleCode.no_claims_declared = 16
rule_code_index RuleCode.no_verification_guide = 17
rule_code_index RuleCode.missing_feature_evidence = 18
rule_code_index RuleCode.no_review_decision_recorded = 19
rule_code_index RuleCode.review_changes_requested = 20
rule_code_index RuleCode.no_qa_report_for_revision = 21
rule_code_index RuleCode.qa_report_did_not_pass = 22
rule_code_index RuleCode.no_test_results_recorded = 23
rule_code_index RuleCode.no_test_execution_evidence = 24
rule_code_index RuleCode.implementation_task_not_accepted = 25
rule_code_index RuleCode.no_implementation_tasks_recorded = 26
rule_code_index RuleCode.dependency_not_accepted = 27
rule_code_index RuleCode.dependency_facts_missing = 28
rule_code_index RuleCode.missing_system_evidence = 29
rule_code_index RuleCode.evidence_standard_undefined = 30
rule_code_index RuleCode.task_not_accepted = 31
rule_code_index RuleCode.no_tasks_recorded = 32
rule_code_index RuleCode.missing_qa_final_pass = 33
rule_code_index RuleCode.invalid_qa_final_pass = 34
rule_code_index RuleCode.unresolved_in_scope_defect = 35
rule_code_index RuleCode.defect_scope_unresolved = 36

abbrev rule_code_label : RuleCode → String
rule_code_label RuleCode.worker_capability_mismatch = "WORKER_CAPABILITY_MISMATCH"
rule_code_label RuleCode.worker_inactive = "WORKER_INACTIVE"
rule_code_label RuleCode.actor_is_not_a_worker = "ACTOR_IS_NOT_A_WORKER"
rule_code_label RuleCode.requester_is_not_the_assigned_worker =
    "REQUESTER_IS_NOT_THE_ASSIGNED_WORKER"
rule_code_label RuleCode.task_has_no_assigned_worker = "TASK_HAS_NO_ASSIGNED_WORKER"
rule_code_label RuleCode.no_reviewer_routed = "NO_REVIEWER_ROUTED"
rule_code_label RuleCode.reviewer_not_eligible = "REVIEWER_NOT_ELIGIBLE"
rule_code_label RuleCode.reviewer_capability_mismatch = "REVIEWER_CAPABILITY_MISMATCH"
rule_code_label RuleCode.reviewer_performed_the_work = "REVIEWER_PERFORMED_THE_WORK"
rule_code_label RuleCode.no_feature_plan_attached = "NO_FEATURE_PLAN_ATTACHED"
rule_code_label RuleCode.plan_defines_no_tasks = "PLAN_DEFINES_NO_TASKS"
rule_code_label RuleCode.plan_not_ready = "PLAN_NOT_READY"
rule_code_label RuleCode.originating_plan_not_supplied = "ORIGINATING_PLAN_NOT_SUPPLIED"
rule_code_label RuleCode.originating_plan_not_active = "ORIGINATING_PLAN_NOT_ACTIVE"
rule_code_label RuleCode.no_active_revision = "NO_ACTIVE_REVISION"
rule_code_label RuleCode.no_work_package_submitted = "NO_WORK_PACKAGE_SUBMITTED"
rule_code_label RuleCode.no_claims_declared = "NO_CLAIMS_DECLARED"
rule_code_label RuleCode.no_verification_guide = "NO_VERIFICATION_GUIDE"
rule_code_label RuleCode.missing_feature_evidence = "MISSING_FEATURE_EVIDENCE"
rule_code_label RuleCode.no_review_decision_recorded = "NO_REVIEW_DECISION_RECORDED"
rule_code_label RuleCode.review_changes_requested = "REVIEW_CHANGES_REQUESTED"
rule_code_label RuleCode.no_qa_report_for_revision = "NO_QA_REPORT_FOR_REVISION"
rule_code_label RuleCode.qa_report_did_not_pass = "QA_REPORT_DID_NOT_PASS"
rule_code_label RuleCode.no_test_results_recorded = "NO_TEST_RESULTS_RECORDED"
rule_code_label RuleCode.no_test_execution_evidence = "NO_TEST_EXECUTION_EVIDENCE"
rule_code_label RuleCode.implementation_task_not_accepted = "IMPLEMENTATION_TASK_NOT_ACCEPTED"
rule_code_label RuleCode.no_implementation_tasks_recorded = "NO_IMPLEMENTATION_TASKS_RECORDED"
rule_code_label RuleCode.dependency_not_accepted = "DEPENDENCY_NOT_ACCEPTED"
rule_code_label RuleCode.dependency_facts_missing = "DEPENDENCY_FACTS_MISSING"
rule_code_label RuleCode.missing_system_evidence = "MISSING_SYSTEM_EVIDENCE"
rule_code_label RuleCode.evidence_standard_undefined = "EVIDENCE_STANDARD_UNDEFINED"
rule_code_label RuleCode.task_not_accepted = "TASK_NOT_ACCEPTED"
rule_code_label RuleCode.no_tasks_recorded = "NO_TASKS_RECORDED"
rule_code_label RuleCode.missing_qa_final_pass = "MISSING_QA_FINAL_PASS"
rule_code_label RuleCode.invalid_qa_final_pass = "INVALID_QA_FINAL_PASS"
rule_code_label RuleCode.unresolved_in_scope_defect = "UNRESOLVED_IN_SCOPE_DEFECT"
rule_code_label RuleCode.defect_scope_unresolved = "DEFECT_SCOPE_UNRESOLVED"

pub rule_code_index_members :
    (a : RuleCode) → get_elem? rule_code_members (rule_code_index a) ≡ some a
rule_code_index_members RuleCode.worker_capability_mismatch = refl
rule_code_index_members RuleCode.worker_inactive = refl
rule_code_index_members RuleCode.actor_is_not_a_worker = refl
rule_code_index_members RuleCode.requester_is_not_the_assigned_worker = refl
rule_code_index_members RuleCode.task_has_no_assigned_worker = refl
rule_code_index_members RuleCode.no_reviewer_routed = refl
rule_code_index_members RuleCode.reviewer_not_eligible = refl
rule_code_index_members RuleCode.reviewer_capability_mismatch = refl
rule_code_index_members RuleCode.reviewer_performed_the_work = refl
rule_code_index_members RuleCode.no_feature_plan_attached = refl
rule_code_index_members RuleCode.plan_defines_no_tasks = refl
rule_code_index_members RuleCode.plan_not_ready = refl
rule_code_index_members RuleCode.originating_plan_not_supplied = refl
rule_code_index_members RuleCode.originating_plan_not_active = refl
rule_code_index_members RuleCode.no_active_revision = refl
rule_code_index_members RuleCode.no_work_package_submitted = refl
rule_code_index_members RuleCode.no_claims_declared = refl
rule_code_index_members RuleCode.no_verification_guide = refl
rule_code_index_members RuleCode.missing_feature_evidence = refl
rule_code_index_members RuleCode.no_review_decision_recorded = refl
rule_code_index_members RuleCode.review_changes_requested = refl
rule_code_index_members RuleCode.no_qa_report_for_revision = refl
rule_code_index_members RuleCode.qa_report_did_not_pass = refl
rule_code_index_members RuleCode.no_test_results_recorded = refl
rule_code_index_members RuleCode.no_test_execution_evidence = refl
rule_code_index_members RuleCode.implementation_task_not_accepted = refl
rule_code_index_members RuleCode.no_implementation_tasks_recorded = refl
rule_code_index_members RuleCode.dependency_not_accepted = refl
rule_code_index_members RuleCode.dependency_facts_missing = refl
rule_code_index_members RuleCode.missing_system_evidence = refl
rule_code_index_members RuleCode.evidence_standard_undefined = refl
rule_code_index_members RuleCode.task_not_accepted = refl
rule_code_index_members RuleCode.no_tasks_recorded = refl
rule_code_index_members RuleCode.missing_qa_final_pass = refl
rule_code_index_members RuleCode.invalid_qa_final_pass = refl
rule_code_index_members RuleCode.unresolved_in_scope_defect = refl
rule_code_index_members RuleCode.defect_scope_unresolved = refl

instance abbrev pub rule_code_enum : StrEnum RuleCode
rule_code_enum = record {
  members = rule_code_members;
  index = rule_code_index;
  label = rule_code_label;
  index_members = rule_code_index_members;
}
