-- ===== src/Domain/Conditions.antt =====
-- domain/conditions.py: the named validation requirements of the lifecycle edges.
use ai_engineering_os.Base.{ℕ, String, ◌≡◌, refl, some, List, [], ◌∷◌, get_elem?, StrEnum}

pub data TransitionCondition : Type 0 where
  feature_plan_attached plan_has_task_definitions plan_is_ready : TransitionCondition
  plan_dependencies_valid tasks_instantiated : TransitionCondition
  all_implementation_tasks_accepted all_tasks_accepted : TransitionCondition
  qa_final_pass_recorded zero_unresolved_in_scope_defects : TransitionCondition
  mandatory_evidence_present qa_defect_findings_recorded : TransitionCondition
  task_has_dependencies dependencies_accepted originating_plan_active : TransitionCondition
  worker_is_active worker_capability_matches requester_is_assigned_worker : TransitionCondition
  work_package_present claims_defined mandatory_system_evidence_attached : TransitionCondition
  verification_guide_present reviewer_assigned review_decision_approved : TransitionCondition
  review_notes_present review_decision_changes_requested : TransitionCondition
  review_feedback_present qa_report_passed test_execution_evidence_present : TransitionCondition
  qa_report_failed defects_documented incremented_revision_created : TransitionCondition

abbrev transition_condition_members : List TransitionCondition
transition_condition_members =
    TransitionCondition.feature_plan_attached ∷ TransitionCondition.plan_has_task_definitions
    ∷ TransitionCondition.plan_is_ready ∷ TransitionCondition.plan_dependencies_valid
    ∷ TransitionCondition.tasks_instantiated ∷ TransitionCondition.all_implementation_tasks_accepted
    ∷ TransitionCondition.all_tasks_accepted ∷ TransitionCondition.qa_final_pass_recorded
    ∷ TransitionCondition.zero_unresolved_in_scope_defects
    ∷ TransitionCondition.mandatory_evidence_present
    ∷ TransitionCondition.qa_defect_findings_recorded ∷ TransitionCondition.task_has_dependencies
    ∷ TransitionCondition.dependencies_accepted ∷ TransitionCondition.originating_plan_active
    ∷ TransitionCondition.worker_is_active ∷ TransitionCondition.worker_capability_matches
    ∷ TransitionCondition.requester_is_assigned_worker ∷ TransitionCondition.work_package_present
    ∷ TransitionCondition.claims_defined ∷ TransitionCondition.mandatory_system_evidence_attached
    ∷ TransitionCondition.verification_guide_present ∷ TransitionCondition.reviewer_assigned
    ∷ TransitionCondition.review_decision_approved ∷ TransitionCondition.review_notes_present
    ∷ TransitionCondition.review_decision_changes_requested
    ∷ TransitionCondition.review_feedback_present ∷ TransitionCondition.qa_report_passed
    ∷ TransitionCondition.test_execution_evidence_present ∷ TransitionCondition.qa_report_failed
    ∷ TransitionCondition.defects_documented ∷ TransitionCondition.incremented_revision_created ∷ []

abbrev transition_condition_index : TransitionCondition → ℕ
transition_condition_index TransitionCondition.feature_plan_attached = 0
transition_condition_index TransitionCondition.plan_has_task_definitions = 1
transition_condition_index TransitionCondition.plan_is_ready = 2
transition_condition_index TransitionCondition.plan_dependencies_valid = 3
transition_condition_index TransitionCondition.tasks_instantiated = 4
transition_condition_index TransitionCondition.all_implementation_tasks_accepted = 5
transition_condition_index TransitionCondition.all_tasks_accepted = 6
transition_condition_index TransitionCondition.qa_final_pass_recorded = 7
transition_condition_index TransitionCondition.zero_unresolved_in_scope_defects = 8
transition_condition_index TransitionCondition.mandatory_evidence_present = 9
transition_condition_index TransitionCondition.qa_defect_findings_recorded = 10
transition_condition_index TransitionCondition.task_has_dependencies = 11
transition_condition_index TransitionCondition.dependencies_accepted = 12
transition_condition_index TransitionCondition.originating_plan_active = 13
transition_condition_index TransitionCondition.worker_is_active = 14
transition_condition_index TransitionCondition.worker_capability_matches = 15
transition_condition_index TransitionCondition.requester_is_assigned_worker = 16
transition_condition_index TransitionCondition.work_package_present = 17
transition_condition_index TransitionCondition.claims_defined = 18
transition_condition_index TransitionCondition.mandatory_system_evidence_attached = 19
transition_condition_index TransitionCondition.verification_guide_present = 20
transition_condition_index TransitionCondition.reviewer_assigned = 21
transition_condition_index TransitionCondition.review_decision_approved = 22
transition_condition_index TransitionCondition.review_notes_present = 23
transition_condition_index TransitionCondition.review_decision_changes_requested = 24
transition_condition_index TransitionCondition.review_feedback_present = 25
transition_condition_index TransitionCondition.qa_report_passed = 26
transition_condition_index TransitionCondition.test_execution_evidence_present = 27
transition_condition_index TransitionCondition.qa_report_failed = 28
transition_condition_index TransitionCondition.defects_documented = 29
transition_condition_index TransitionCondition.incremented_revision_created = 30

abbrev transition_condition_label : TransitionCondition → String
transition_condition_label TransitionCondition.feature_plan_attached = "FEATURE_PLAN_ATTACHED"
transition_condition_label TransitionCondition.plan_has_task_definitions =
    "PLAN_HAS_TASK_DEFINITIONS"
transition_condition_label TransitionCondition.plan_is_ready = "PLAN_IS_READY"
transition_condition_label TransitionCondition.plan_dependencies_valid = "PLAN_DEPENDENCIES_VALID"
transition_condition_label TransitionCondition.tasks_instantiated = "TASKS_INSTANTIATED"
transition_condition_label TransitionCondition.all_implementation_tasks_accepted =
    "ALL_IMPLEMENTATION_TASKS_ACCEPTED"
transition_condition_label TransitionCondition.all_tasks_accepted = "ALL_TASKS_ACCEPTED"
transition_condition_label TransitionCondition.qa_final_pass_recorded = "QA_FINAL_PASS_RECORDED"
transition_condition_label TransitionCondition.zero_unresolved_in_scope_defects =
    "ZERO_UNRESOLVED_IN_SCOPE_DEFECTS"
transition_condition_label TransitionCondition.mandatory_evidence_present =
    "MANDATORY_EVIDENCE_PRESENT"
transition_condition_label TransitionCondition.qa_defect_findings_recorded =
    "QA_DEFECT_FINDINGS_RECORDED"
transition_condition_label TransitionCondition.task_has_dependencies = "TASK_HAS_DEPENDENCIES"
transition_condition_label TransitionCondition.dependencies_accepted = "DEPENDENCIES_ACCEPTED"
transition_condition_label TransitionCondition.originating_plan_active = "ORIGINATING_PLAN_ACTIVE"
transition_condition_label TransitionCondition.worker_is_active = "WORKER_IS_ACTIVE"
transition_condition_label TransitionCondition.worker_capability_matches =
    "WORKER_CAPABILITY_MATCHES"
transition_condition_label TransitionCondition.requester_is_assigned_worker =
    "REQUESTER_IS_ASSIGNED_WORKER"
transition_condition_label TransitionCondition.work_package_present = "WORK_PACKAGE_PRESENT"
transition_condition_label TransitionCondition.claims_defined = "CLAIMS_DEFINED"
transition_condition_label TransitionCondition.mandatory_system_evidence_attached =
    "MANDATORY_SYSTEM_EVIDENCE_ATTACHED"
transition_condition_label TransitionCondition.verification_guide_present =
    "VERIFICATION_GUIDE_PRESENT"
transition_condition_label TransitionCondition.reviewer_assigned = "REVIEWER_ASSIGNED"
transition_condition_label TransitionCondition.review_decision_approved = "REVIEW_DECISION_APPROVED"
transition_condition_label TransitionCondition.review_notes_present = "REVIEW_NOTES_PRESENT"
transition_condition_label TransitionCondition.review_decision_changes_requested =
    "REVIEW_DECISION_CHANGES_REQUESTED"
transition_condition_label TransitionCondition.review_feedback_present = "REVIEW_FEEDBACK_PRESENT"
transition_condition_label TransitionCondition.qa_report_passed = "QA_REPORT_PASSED"
transition_condition_label TransitionCondition.test_execution_evidence_present =
    "TEST_EXECUTION_EVIDENCE_PRESENT"
transition_condition_label TransitionCondition.qa_report_failed = "QA_REPORT_FAILED"
transition_condition_label TransitionCondition.defects_documented = "DEFECTS_DOCUMENTED"
transition_condition_label TransitionCondition.incremented_revision_created =
    "INCREMENTED_REVISION_CREATED"

pub transition_condition_index_members :
    (a : TransitionCondition)
    → get_elem? transition_condition_members (transition_condition_index a) ≡ some a
transition_condition_index_members TransitionCondition.feature_plan_attached = refl
transition_condition_index_members TransitionCondition.plan_has_task_definitions = refl
transition_condition_index_members TransitionCondition.plan_is_ready = refl
transition_condition_index_members TransitionCondition.plan_dependencies_valid = refl
transition_condition_index_members TransitionCondition.tasks_instantiated = refl
transition_condition_index_members TransitionCondition.all_implementation_tasks_accepted = refl
transition_condition_index_members TransitionCondition.all_tasks_accepted = refl
transition_condition_index_members TransitionCondition.qa_final_pass_recorded = refl
transition_condition_index_members TransitionCondition.zero_unresolved_in_scope_defects = refl
transition_condition_index_members TransitionCondition.mandatory_evidence_present = refl
transition_condition_index_members TransitionCondition.qa_defect_findings_recorded = refl
transition_condition_index_members TransitionCondition.task_has_dependencies = refl
transition_condition_index_members TransitionCondition.dependencies_accepted = refl
transition_condition_index_members TransitionCondition.originating_plan_active = refl
transition_condition_index_members TransitionCondition.worker_is_active = refl
transition_condition_index_members TransitionCondition.worker_capability_matches = refl
transition_condition_index_members TransitionCondition.requester_is_assigned_worker = refl
transition_condition_index_members TransitionCondition.work_package_present = refl
transition_condition_index_members TransitionCondition.claims_defined = refl
transition_condition_index_members TransitionCondition.mandatory_system_evidence_attached = refl
transition_condition_index_members TransitionCondition.verification_guide_present = refl
transition_condition_index_members TransitionCondition.reviewer_assigned = refl
transition_condition_index_members TransitionCondition.review_decision_approved = refl
transition_condition_index_members TransitionCondition.review_notes_present = refl
transition_condition_index_members TransitionCondition.review_decision_changes_requested = refl
transition_condition_index_members TransitionCondition.review_feedback_present = refl
transition_condition_index_members TransitionCondition.qa_report_passed = refl
transition_condition_index_members TransitionCondition.test_execution_evidence_present = refl
transition_condition_index_members TransitionCondition.qa_report_failed = refl
transition_condition_index_members TransitionCondition.defects_documented = refl
transition_condition_index_members TransitionCondition.incremented_revision_created = refl

instance abbrev pub transition_condition_enum : StrEnum TransitionCondition
transition_condition_enum = record {
  members = transition_condition_members;
  index = transition_condition_index;
  label = transition_condition_label;
  index_members = transition_condition_index_members;
}
