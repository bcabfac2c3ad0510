-- ===== src/Storage/Examples.antt =====
-- Runs of storage at concrete entities.
use ai_engineering_os.Storage.Mappers.Json.{Uuids}
use ai_engineering_os.State.Machine.{definition}
use ai_engineering_os.Domain.Decision.{Decision, decision_authority, is_valid_decision}
use ai_engineering_os.Domain.Plan.{FeaturePlan, TaskDefinition, is_valid_definition, is_valid_plan}
use ai_engineering_os.Domain.Qa.{
  QaDefect, QaReport, is_valid_defect, is_valid_report, status_matches_findings,
}
use ai_engineering_os.Domain.Task.Revision.{
  TaskRevision, TaskRevisionHistory, is_valid_history, numbered_from,
}
use ai_engineering_os.Domain.Plan.Cycle.{
  drop_last, explore, find_cycle, from_node, successors, walk, walk_each,
}
use ai_engineering_os.Storage.Mappers.Decision.{
  to_acknowledgement_rows, to_decision_row, to_domain_decision,
}
use ai_engineering_os.Storage.Mappers.Qa.{to_defect_rows, to_domain_qa_report, to_qa_report_row}
use ai_engineering_os.Storage.Mappers.Plan.{to_domain_plan, to_plan_definition_rows, to_plan_row}
use ai_engineering_os.Storage.Mappers.Revision.{
  TaskRevisionRow, number_of, to_domain_revision_history, to_revision_row,
}
use ai_engineering_os.Storage.Mappers.Ledgers.{to_domain_revision_history-to_revision_row}
use ai_engineering_os.Storage.Mappers.RoundTrip.{
  to_domain_decision-to_decision_row, to_domain_plan-to_plan_row,
  to_domain_qa_report-to_qa_report_row, to_domain_task-to_task_row,
}
use ai_engineering_os.Base.{
  IsApart, List, Memᴰ, String, [], all, any, false, filter, if◌then◌else◌, no_duplicates,
  no_duplicates-IsApart, none, ok, refl, some, str_eq, true, ℕ, ◌+◌, ◌==◌, ◌∷◌, ◌≡◌,
}
use ai_engineering_os.Domain.Enums.{
  ActorRole, CapabilityType, DecisionScope, DefectStatus, PlanStatus, QaStatus, TaskStatus,
  actor_role_enum, capability_type_enum, decision_scope_enum, defect_status_enum,
  evidence_source_type_enum, evidence_type_enum, feature_status_enum, initiator_enum,
  plan_status_enum, qa_status_enum, review_outcome_enum, task_status_enum, work_package_status_enum,
}
use ai_engineering_os.Domain.Task.{
  Task, assignment_matches_status, dependencies_are_well_formed, is_unassigned_status,
  is_valid_task, pending_has_dependencies, post_submission_has_revision, requires_assignment,
  requires_reviewer, requires_revision, reviewer_is_not_the_worker, routing_matches_status,
}
use ai_engineering_os.Storage.Mappers.Task.{to_domain_task, to_task_dependency_rows, to_task_row}

abbrev waiting_task : ℕ → List ℕ → Task
waiting_task id dependencies = record {
  id = id;
  feature_id = 10;
  feature_plan_id = 20;
  plan_definition_key = "build";
  title = "Build";
  capability = CapabilityType.backend;
  status = TaskStatus.pending_dependencies;
  assigned_worker_id = none;
  reviewer_id = none;
  dependencies = dependencies;
  active_revision_number = 0;
  created_at = 1;
  updated_at = 2;
}

waiting_task_is_valid : is_valid_task (waiting_task 31 (40 ∷ 30 ∷ [])) ≡ true
unfolding is_valid_task dependencies_are_well_formed pending_has_dependencies
    assignment_matches_status routing_matches_status reviewer_is_not_the_worker
    post_submission_has_revision no_duplicates any requires_assignment requires_reviewer
    requires_revision is_unassigned_status
waiting_task_is_valid = refl

to_domain_task-to_task_row_example :
    to_domain_task
      (to_task_row (waiting_task 31 (40 ∷ 30 ∷ [])))
      (to_task_dependency_rows (waiting_task 31 (40 ∷ 30 ∷ [])))
    ≡ ok (waiting_task 31 (40 ∷ 30 ∷ []))
to_domain_task-to_task_row_example =
    to_domain_task-to_task_row (waiting_task 31 (40 ∷ 30 ∷ [])) waiting_task_is_valid

abbrev defined : String → List String → TaskDefinition
defined key depends_on = record {
  key = key;
  title = key;
  capability = CapabilityType.qa;
  depends_on = depends_on;
}

abbrev small_plan : FeaturePlan
small_plan = record {
  id = 50;
  feature_id = 10;
  revision_number = 1;
  created_by = 1;
  status = PlanStatus.ready;
  required_capabilities = CapabilityType.backend ∷ CapabilityType.qa ∷ [];
  task_definitions = defined "design" [] ∷ defined "parse" ("design" ∷ []) ∷ [];
  created_at = 5;
}

small_plan_is_valid : is_valid_plan small_plan ≡ true
unfolding is_valid_plan any all no_duplicates find_cycle explore walk_each walk successors from_node
    drop_last filter
small_plan_is_valid = refl

defined_is_valid :
    (definition : TaskDefinition)
    → Memᴰ definition small_plan.task_definitions
    → is_valid_definition definition ≡ true
unfolding is_valid_definition any no_duplicates
defined_is_valid definition (Memᴰ.head e) = rw e refl
defined_is_valid definition (Memᴰ.tail (Memᴰ.head e)) = rw e refl
defined_is_valid definition (Memᴰ.tail (Memᴰ.tail m)) = elim m [ ]

to_domain_plan-to_plan_row_example :
    to_domain_plan (to_plan_row small_plan) (to_plan_definition_rows small_plan) ≡ ok small_plan
to_domain_plan-to_plan_row_example =
    to_domain_plan-to_plan_row small_plan small_plan_is_valid defined_is_valid

abbrev found_defect : QaDefect
found_defect = record {
  id = 70;
  title = "Wrong total";
  severity = "HIGH";
  priority = "P1";
  is_blocker = true;
  status = DefectStatus.opened;
  scope_task_id = some 30;
  scope_feature_id = none;
}

abbrev failed_report : QaReport
failed_report = record {
  id = 60;
  feature_id = 10;
  status = QaStatus.failed;
  qa_round = 2;
  task_revision_id = none;
  is_final_pass = false;
  tested_scope = "totals" ∷ [];
  results =
      record { name = "total"; passed = false; details = some "off by one" }
      ∷ record { name = "empty"; passed = true; details = none }
      ∷ [];
  defects = found_defect ∷ [];
  evidence_ids = 5 ∷ 4 ∷ [];
  created_at = 9;
}

failed_report_is_valid : is_valid_report failed_report ≡ true
unfolding is_valid_report no_duplicates any status_matches_findings
failed_report_is_valid = refl

found_defect_is_valid :
    (defect : QaDefect) → Memᴰ defect failed_report.defects → is_valid_defect defect ≡ true
unfolding is_valid_defect
found_defect_is_valid defect (Memᴰ.head e) = rw e refl
found_defect_is_valid defect (Memᴰ.tail m) = elim m [ ]

abbrev two_uuids : Uuids
two_uuids = record {
  print = λ n. if n == 5 then "u-5" else "u-4";
  parse =
      λ words. if str_eq words "u-5" then some 5 else if str_eq words "u-4" then some 4 else none;
}

printed_is_parsed :
    (n : ℕ) → Memᴰ n failed_report.evidence_ids → two_uuids.parse (two_uuids.print n) ≡ some n
printed_is_parsed n (Memᴰ.head e) = rw e refl
printed_is_parsed n (Memᴰ.tail (Memᴰ.head e)) = rw e refl
printed_is_parsed n (Memᴰ.tail (Memᴰ.tail m)) = elim m [ ]

to_domain_qa_report-to_qa_report_row_example :
    to_domain_qa_report two_uuids
      (to_qa_report_row two_uuids failed_report)
      (to_defect_rows failed_report)
    ≡ ok failed_report
to_domain_qa_report-to_qa_report_row_example =
    to_domain_qa_report-to_qa_report_row two_uuids failed_report failed_report_is_valid
      found_defect_is_valid printed_is_parsed

abbrev acknowledged_decision : Decision
acknowledged_decision = record {
  id = 80;
  scope = DecisionScope.feature;
  decided_by_role = ActorRole.coordinator;
  decided_by_id = 1;
  problem = "Which format";
  decision_text = "JSON";
  reasoning = "It is there";
  alternatives_considered = "XML" ∷ [];
  affected_domains = [];
  acknowledgements =
      record { actor_id = 3; actor_role = ActorRole.worker; acknowledged_at = 6 }
      ∷ record { actor_id = 2; actor_role = ActorRole.qa; acknowledged_at = 7 }
      ∷ [];
  created_at = 5;
}

acknowledged_decision_is_valid : is_valid_decision acknowledged_decision ≡ true
unfolding is_valid_decision any no_duplicates decision_authority
acknowledged_decision_is_valid = refl

to_domain_decision-to_decision_row_example :
    to_domain_decision
      (to_decision_row acknowledged_decision)
      (to_acknowledgement_rows acknowledged_decision)
    ≡ ok acknowledged_decision
to_domain_decision-to_decision_row_example =
    to_domain_decision-to_decision_row acknowledged_decision acknowledged_decision_is_valid

abbrev revision_numbered : ℕ → TaskRevision
revision_numbered n = record {
  id = 200 + n;
  task_id = 30;
  revision_number = n;
  created_by_worker_id = 1;
  work_package_id = none;
  review_decision_id = none;
  qa_report_id = none;
  created_at = 7;
}

abbrev two_revisions : TaskRevisionHistory
two_revisions = record { task_id = 30; revisions = revision_numbered 1 ∷ revision_numbered 2 ∷ [] }

two_revisions_are_valid : is_valid_history two_revisions ≡ true
unfolding is_valid_history all numbered_from
two_revisions_are_valid = refl

-- The second one first.
abbrev two_rows : List TaskRevisionRow
two_rows = to_revision_row (revision_numbered 2) ∷ to_revision_row (revision_numbered 1) ∷ []

swapped : {A : Type 0} (a b z : A) → Memᴰ z (a ∷ b ∷ []) → Memᴰ z (b ∷ a ∷ [])
swapped a b z (Memᴰ.head e) = Memᴰ.tail (Memᴰ.head e)
swapped a b z (Memᴰ.tail (Memᴰ.head e)) = Memᴰ.head e
swapped a b z (Memᴰ.tail (Memᴰ.tail m)) = elim m [ ]

two_rows-IsApart : IsApart number_of two_rows
unfolding any no_duplicates to_revision_row
two_rows-IsApart = no_duplicates-IsApart number_of two_rows refl

to_domain_revision_history-to_revision_row_example :
    to_domain_revision_history 30 two_rows ≡ ok two_revisions
to_domain_revision_history-to_revision_row_example =
    to_domain_revision_history-to_revision_row two_revisions two_rows two_revisions_are_valid
      two_rows-IsApart (swapped _ _) (swapped _ _)
