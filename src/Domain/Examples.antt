-- ===== src/Domain/Examples.antt =====
-- Runs of domain at concrete entities.
use ai_engineering_os.Domain.Plan.{
  FeaturePlan, TaskDefinition, dependency_graph, is_valid_plan, validated_plan,
}
use ai_engineering_os.Domain.Plan.Acyclic.{validated_plan-acyclic}
use ai_engineering_os.Domain.Plan.Cycle.{
  Graph, Outcome, drop_last, explore, find_cycle, from_node, successors, walk, walk_each,
}
use ai_engineering_os.Domain.Plan.Cycle.Exact.{IsCycle, find_cycle-IsCycle, find_cycle-acyclic}
use ai_engineering_os.Domain.Plan.Cycle.Fuel.{explore-HasFuel}
use ai_engineering_os.Domain.Plan.Cycle.Reaches.{Reaches}
use ai_engineering_os.Domain.Enums.{
  CapabilityType, PlanStatus, actor_role_enum, capability_type_enum, decision_scope_enum,
  defect_status_enum, evidence_source_type_enum, evidence_type_enum, feature_status_enum,
  initiator_enum, plan_status_enum, qa_status_enum, review_outcome_enum, task_status_enum,
  work_package_status_enum,
}
use ai_engineering_os.Base.{
  List, String, [], all, any, filter, is_ok, length, no_duplicates, none, ok, refl, true, ℕ, ◌+◌,
  ◌↔◌, ◌∷◌, ◌≡◌,
}
use ai_engineering_os.Domain.Task.Revision.{
  TaskRevision, TaskRevisionHistory, append, is_valid_history, numbered_from,
}
use ai_engineering_os.Domain.Task.Revision.Additive.{append_iff}

abbrev revision_numbered : ℕ → TaskRevision
revision_numbered n = record {
  id = 200 + n;
  task_id = 30;
  revision_number = n;
  created_by_worker_id = 1;
  work_package_id = none;
  review_decision_id = none;
  qa_report_id = none;
  created_at = 7;
}

abbrev history_to : List TaskRevision → TaskRevisionHistory
history_to revisions = record { task_id = 30; revisions = revisions }

abbrev two_revisions : List TaskRevision
two_revisions = revision_numbered 1 ∷ revision_numbered 2 ∷ []

first_revision_is_valid : is_valid_history (history_to (revision_numbered 1 ∷ [])) ≡ true
unfolding is_valid_history numbered_from all
first_revision_is_valid = refl

append_iff_example :
    (((revision_numbered 2).task_id ≡ 30)
        × ((revision_numbered 2).revision_number ≡ length (revision_numbered 1 ∷ []) + 1)
      → (append (history_to (revision_numbered 1 ∷ [])) (revision_numbered 2)
          ≡ ok (history_to two_revisions))
        × (is_valid_history (history_to two_revisions) ≡ true))
    × (is_ok (append (history_to (revision_numbered 1 ∷ [])) (revision_numbered 2)) ≡ true
        → ((revision_numbered 2).task_id ≡ 30)
          × ((revision_numbered 2).revision_number ≡ length (revision_numbered 1 ∷ []) + 1))
append_iff_example =
    append_iff (history_to (revision_numbered 1 ∷ [])) (revision_numbered 2) first_revision_is_valid

-- `parse` depends on `design`, `build` on both.
abbrev layered : Graph
layered = ("design", []) ∷ ("parse", "design" ∷ []) ∷ ("build", "design" ∷ "parse" ∷ []) ∷ []

-- `build` and `parse` wait for one another, and `test` waits for `build`.
abbrev knotted : Graph
knotted = ("test", "build" ∷ []) ∷ ("build", "parse" ∷ []) ∷ ("parse", "build" ∷ []) ∷ []

explore-HasFuel_example : ¬ (explore knotted ≡ Outcome.out_of_fuel)
explore-HasFuel_example = explore-HasFuel knotted

find_cycle-IsCycle_example : IsCycle knotted ("build" ∷ "parse" ∷ "build" ∷ [])
unfolding find_cycle explore walk_each walk successors from_node drop_last any filter
find_cycle-IsCycle_example = find_cycle-IsCycle knotted ("build" ∷ "parse" ∷ "build" ∷ []) refl

find_cycle-acyclic_example : (find_cycle layered ≡ none) ↔ ((x : String) → ¬ Reaches layered x x)
find_cycle-acyclic_example = find_cycle-acyclic layered

find_cycle-layered : find_cycle layered ≡ none
unfolding find_cycle explore walk_each walk successors from_node drop_last any filter
find_cycle-layered = refl

abbrev defined : String → List String → TaskDefinition
defined key depends_on = record {
  key = key;
  title = key;
  capability = CapabilityType.backend;
  depends_on = depends_on;
}

abbrev ready_plan : FeaturePlan
ready_plan = record {
  id = 50;
  feature_id = 10;
  revision_number = 1;
  created_by = 1;
  status = PlanStatus.draft;
  required_capabilities = CapabilityType.backend ∷ [];
  task_definitions = defined "design" [] ∷ defined "parse" ("design" ∷ []) ∷ [];
  created_at = 5;
}

validated_plan-acyclic_example :
    (ready_plan ≡ ready_plan) × ((key : String) → ¬ Reaches (dependency_graph ready_plan) key key)
unfolding validated_plan is_valid_plan any all no_duplicates find_cycle explore walk_each walk
    successors from_node drop_last filter
validated_plan-acyclic_example = validated_plan-acyclic ready_plan ready_plan refl
