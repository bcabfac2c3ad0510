-- ===== src/Storage/Mappers/RoundTrip.antt =====
-- storage/mappers: an entity that its validators accept is read back from the rows written for it.
use ai_engineering_os.Storage.Mappers.Json.{
  Uuids, dump_result, entry, has_only_fields, optional_text, read_result, read_uuid,
  required_boolean, required_text,
}
use ai_engineering_os.Domain.Decision.{Decision, DecisionAcknowledgement, is_valid_decision}
use ai_engineering_os.Domain.Feature.{Feature, is_valid_feature}
use ai_engineering_os.Domain.Plan.{FeaturePlan, TaskDefinition, is_valid_definition, is_valid_plan}
use ai_engineering_os.Domain.Qa.{QaDefect, QaReport, TestResult, is_valid_defect, is_valid_report}
use ai_engineering_os.Domain.Task.{Task, is_valid_task}
use ai_engineering_os.Storage.Mappers.Task.{
  TaskDependencyRow, position_of_dependency, to_dependency_row, to_domain_task,
  to_task_dependency_rows, to_task_row,
}
use ai_engineering_os.Domain.WorkPackage.{WorkPackage, is_valid_package}
use ai_engineering_os.State.Machine.{definition}
use ai_engineering_os.Storage.Mappers.Decision.{
  position_of_acknowledgement, read_acknowledgement, to_acknowledgement_row,
  to_acknowledgement_rows, to_decision_row, to_domain_decision,
}
use ai_engineering_os.Storage.Mappers.Qa.{
  position_of_defect, read_defect, to_defect_row, to_defect_rows, to_domain_qa_report,
  to_qa_report_row,
}
use ai_engineering_os.Storage.Mappers.Plan.{
  position_of_definition, read_definition, to_definition_row, to_domain_plan,
  to_plan_definition_rows, to_plan_row,
}
use ai_engineering_os.Storage.Mappers.Feature.{to_domain_feature, to_feature_row}
use ai_engineering_os.Storage.Mappers.WorkPackage.{to_domain_work_package, to_work_package_row}
use ai_engineering_os.Base.{
  List, Memᴰ, Option, Result, String, [], all, find, map, none, ok, refl, some, true, ℕ, ◌+◌, ◌∷◌,
  ◌≡◌,
}
use ai_engineering_os.Storage.Mappers.{read_all, reconstruct, rows_from}
use ai_engineering_os.Storage.Mappers.Reading.{
  read_all-rows_from, read_members-value, sorted-rows_from,
}
use ai_engineering_os.Storage.Mappers.Labels.{
  read_actor_role, read_capability_type, read_decision_scope, read_defect_status,
  read_feature_status, read_plan_status, read_qa_status, read_task_status, read_work_package_status,
}
use ai_engineering_os.Domain.Enums.{
  actor_role_enum, capability_type_enum, decision_scope_enum, defect_status_enum,
  evidence_source_type_enum, evidence_type_enum, feature_status_enum, initiator_enum,
  plan_status_enum, qa_status_enum, review_outcome_enum, task_status_enum, work_package_status_enum,
}
use ai_engineering_os.Domain.Event.{event_type_enum, transition_outcome_enum}

pub map-rows_from :
    {A Row : Type 0} (to_row : ℕ → A → Row) (back : Row → A)
    → ((n : ℕ) (x : A) → back (to_row n x) ≡ x)
    → (n : ℕ) (xs : List A) → map back (rows_from to_row n xs) ≡ xs
unfolding rows_from
map-rows_from to_row back one n [] = refl
map-rows_from to_row back one n (x ∷ xs) =
    rw (one n x, map-rows_from to_row back one (n + 1) xs) refl

-- A Task that its validators accept is read back, with its dependencies in their order, from the row
-- and the dependency rows that are written for it.
pub to_domain_task-to_task_row :
    (task : Task)
    → is_valid_task task ≡ true
    → to_domain_task (to_task_row task) (to_task_dependency_rows task) ≡ ok task
unfolding to_domain_task to_task_row to_task_dependency_rows reconstruct
to_domain_task-to_task_row task valid =
    let sorted_edges =
      sorted-rows_from (to_dependency_row task.id) position_of_dependency (λ n d. refl) 0
        task.dependencies in
    let edges =
      map-rows_from (to_dependency_row task.id)
        (λ (edge : TaskDependencyRow). edge.depends_on_task_id) (λ n d. refl) 0 task.dependencies in
    rw
      (
        read_capability_type task.capability,
        read_task_status task.status,
        sorted_edges,
        edges,
        valid,
      )
      refl

pub to_domain_feature-to_feature_row :
    (feature : Feature)
    → is_valid_feature feature ≡ true
    → to_domain_feature (to_feature_row feature) ≡ ok feature
unfolding to_domain_feature to_feature_row reconstruct
to_domain_feature-to_feature_row feature valid = rw (read_feature_status feature.status, valid) refl

pub to_domain_work_package-to_work_package_row :
    (work_package : WorkPackage)
    → is_valid_package work_package ≡ true
    → to_domain_work_package (to_work_package_row work_package) ≡ ok work_package
unfolding to_domain_work_package to_work_package_row reconstruct
to_domain_work_package-to_work_package_row work_package valid =
    rw (read_work_package_status work_package.status, valid) refl

read_definition-to_definition_row :
    (plan_id position : ℕ) (definition : TaskDefinition)
    → is_valid_definition definition ≡ true
    → read_definition (to_definition_row plan_id position definition) ≡ ok definition
unfolding read_definition reconstruct
read_definition-to_definition_row plan_id position definition valid =
    rw (read_capability_type definition.capability, valid) refl

-- A Feature Plan that its validators accept, with definitions that theirs accept, is read back from
-- the row and the definition rows that are written for it, its definitions in their order.
pub to_domain_plan-to_plan_row :
    (plan : FeaturePlan)
    → is_valid_plan plan ≡ true
    → ((definition : TaskDefinition)
        → Memᴰ definition plan.task_definitions
        → is_valid_definition definition ≡ true)
    → to_domain_plan (to_plan_row plan) (to_plan_definition_rows plan) ≡ ok plan
unfolding to_domain_plan to_plan_row to_plan_definition_rows reconstruct
to_domain_plan-to_plan_row plan valid each =
    let sorted_rows =
      sorted-rows_from (to_definition_row plan.id) position_of_definition (λ n d. refl) 0
        plan.task_definitions in
    let definitions =
      read_all-rows_from (to_definition_row plan.id) read_definition 0 plan.task_definitions
        (λ k d m. read_definition-to_definition_row plan.id k d (each d m)) in
    rw
      (
        read_plan_status plan.status,
        read_members-value read_capability_type plan.required_capabilities,
        sorted_rows,
        definitions,
        valid,
      )
      refl

read_defect-to_defect_row :
    (report_id position : ℕ) (defect : QaDefect)
    → is_valid_defect defect ≡ true
    → read_defect (to_defect_row report_id position defect) ≡ ok defect
unfolding read_defect reconstruct
read_defect-to_defect_row report_id position defect valid =
    rw (read_defect_status defect.status, valid) refl

read_result-dump_result : (result : TestResult) → read_result (dump_result result) ≡ ok result
unfolding read_result dump_result entry find has_only_fields all required_text required_boolean
    optional_text reconstruct
read_result-dump_result result = by_details result.details refl
  where
    by_details :
        (details : Option String)
        → result.details ≡ details
        → read_result (dump_result result) ≡ ok result
    by_details none e = rw e refl
    by_details (some words) e = rw e refl

read_all-map :
    {A Row : Type 0} (to_row : A → Row) (back : Row → Result A) (xs : List A)
    → ((x : A) → Memᴰ x xs → back (to_row x) ≡ ok x)
    → read_all back (map to_row xs) ≡ ok xs
unfolding read_all
read_all-map to_row back [] one = refl
read_all-map to_row back (x ∷ xs) one =
    rw (one x (Memᴰ.head refl), read_all-map to_row back xs (λ y m. one y (Memᴰ.tail m))) refl

module _ (uuids : Uuids) where
  read_uuid-print :
      (n : ℕ) → uuids.parse (uuids.print n) ≡ some n → read_uuid uuids (uuids.print n) ≡ ok n
  unfolding read_uuid
  read_uuid-print n e = rw e refl

  -- A QA Report that its validators accept, with defects that theirs accept, is read back from the
  -- row and the defect rows that are written for it: its test results from the JSON objects, its
  -- evidence identifiers from their texts, its defects in their order. The condition on the
  -- identifiers is that the text printed for each of them is parsed as it.
  pub to_domain_qa_report-to_qa_report_row :
      (report : QaReport)
      → is_valid_report report ≡ true
      → ((defect : QaDefect) → Memᴰ defect report.defects → is_valid_defect defect ≡ true)
      → ((n : ℕ) → Memᴰ n report.evidence_ids → uuids.parse (uuids.print n) ≡ some n)
      → to_domain_qa_report uuids (to_qa_report_row uuids report) (to_defect_rows report)
        ≡ ok report
  unfolding to_domain_qa_report to_qa_report_row to_defect_rows reconstruct
  to_domain_qa_report-to_qa_report_row report valid each printed =
      let sorted_rows =
        sorted-rows_from (to_defect_row report.id) position_of_defect (λ n d. refl) 0
          report.defects in
      let defects =
        read_all-rows_from (to_defect_row report.id) read_defect 0 report.defects
          (λ k d m. read_defect-to_defect_row report.id k d (each d m)) in
      let results =
        read_all-map dump_result read_result report.results (λ r m. read_result-dump_result r) in
      let evidence =
        read_all-map uuids.print (read_uuid uuids) report.evidence_ids
          (λ n m. read_uuid-print n (printed n m)) in
      rw (read_qa_status report.status, sorted_rows, defects, results, evidence, valid) refl

read_acknowledgement-to_acknowledgement_row :
    (decision_id position : ℕ) (acknowledgement : DecisionAcknowledgement)
    → read_acknowledgement (to_acknowledgement_row decision_id position acknowledgement)
      ≡ ok acknowledgement
unfolding read_acknowledgement
read_acknowledgement-to_acknowledgement_row decision_id position acknowledgement =
    rw (read_actor_role acknowledgement.actor_role) refl

-- A Decision that its validators accept is read back from the row and the acknowledgement rows that
-- are written for it, its acknowledgements in their order.
pub to_domain_decision-to_decision_row :
    (decision : Decision)
    → is_valid_decision decision ≡ true
    → to_domain_decision (to_decision_row decision) (to_acknowledgement_rows decision) ≡ ok decision
unfolding to_domain_decision to_decision_row to_acknowledgement_rows reconstruct
to_domain_decision-to_decision_row decision valid =
    let sorted_rows =
      sorted-rows_from (to_acknowledgement_row decision.id) position_of_acknowledgement
        (λ n d. refl) 0 decision.acknowledgements in
    let acknowledged =
      read_all-rows_from (to_acknowledgement_row decision.id) read_acknowledgement 0
        decision.acknowledgements
        (λ k a m. read_acknowledgement-to_acknowledgement_row decision.id k a) in
    rw
      (
        read_decision_scope decision.scope,
        read_actor_role decision.decided_by_role,
        sorted_rows,
        acknowledged,
        valid,
      )
      refl
