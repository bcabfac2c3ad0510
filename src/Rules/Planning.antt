-- ===== src/Rules/Planning.antt =====
-- rules/planning.py: the planning gates.
use ai_engineering_os.Base.{
  Bool, Error, List, Result, [], err, false, filter, find_last, head?, if◌then◌else◌, is_empty, leb,
  map, none, not, ok, same, some, sorted, true, ℕ, ◌&&◌, ◌==◌, ◌∷◌, ◌>>=◌,
}
use ai_engineering_os.Domain.Enums.{
  PlanStatus, actor_role_enum, capability_type_enum, evidence_type_enum, feature_status_enum,
  initiator_enum, plan_status_enum, qa_status_enum, review_outcome_enum, task_status_enum,
  work_package_status_enum,
}
use ai_engineering_os.Domain.Conditions.{TransitionCondition, transition_condition_enum}
use ai_engineering_os.Domain.Task.{Task}
use ai_engineering_os.Domain.Feature.{Feature}
use ai_engineering_os.Domain.Plan.{FeaturePlan}
use ai_engineering_os.Rules.Codes.{RuleCode, RuleId, RuleStage, rule_code_enum, rule_id_enum}
use ai_engineering_os.Rules.Facts.{RuleFact, rule_fact_enum}
use ai_engineering_os.Rules.Context.{require}
use ai_engineering_os.Rules.Results.{Finding, Rule, attributed, ids, names}

-- `plan.status in _LIVE_PLAN_STATUSES`
abbrev pub is_live_status : PlanStatus → Bool
is_live_status PlanStatus.draft = true
is_live_status PlanStatus.ready = true
is_live_status PlanStatus.active = true
is_live_status _ = false

-- Newest revision first; the sort is stable, and `reverse=True` keeps equal keys in order.
unfoldable pub live_plans : List FeaturePlan → ℕ → List FeaturePlan
unfolding filter sorted
live_plans plans feature_id =
    sorted (λ (a b : FeaturePlan). leb b.revision_number a.revision_number)
      (filter (λ plan. plan.feature_id == feature_id && is_live_status plan.status) plans)

unfoldable pub plan_attached_finding : Feature → List FeaturePlan → Finding
unfolding live_plans
plan_attached_finding feature plans =
    if is_empty (live_plans plans feature.id)
    then Finding.violated RuleCode.no_feature_plan_attached (
        ids "feature_id" (feature.id ∷ [])
        ∷ names "plan_statuses" (map (λ (p : FeaturePlan). p.status) plans)
        ∷ [])
    else Finding.satisfied

abbrev pub feature_plan_attached_rule : Rule
feature_plan_attached_rule = record {
  rule_id = RuleId.feature_plan_attached;
  condition = TransitionCondition.feature_plan_attached;
  stage = RuleStage.plan_dependency;
  required_facts = RuleFact.feature ∷ RuleFact.feature_plans ∷ [];
  requires = [];
  evaluate = λ context. do
    feature ← require context.feature
    plans ← require context.feature_plans
    ok (
        attributed RuleId.feature_plan_attached TransitionCondition.feature_plan_attached
          (plan_attached_finding feature plans));
}

-- `_live_plans(...)[0]`, which raises on an empty tuple.
unfoldable pub newest_live_plan : List FeaturePlan → ℕ → Result FeaturePlan
unfolding live_plans
newest_live_plan plans feature_id = elim (head? (live_plans plans feature_id)) [
  | none ↦ err Error.index_error
  | some plan ↦ ok plan
]

unfoldable pub plan_has_tasks_finding : Feature → FeaturePlan → Finding
plan_has_tasks_finding feature plan =
    if is_empty plan.task_definitions
    then Finding.violated RuleCode.plan_defines_no_tasks
        (ids "feature_plan_id" (plan.id ∷ []) ∷ ids "feature_id" (feature.id ∷ []) ∷ [])
    else Finding.satisfied

abbrev pub plan_has_task_definitions_rule : Rule
plan_has_task_definitions_rule = record {
  rule_id = RuleId.plan_has_task_definitions;
  condition = TransitionCondition.plan_has_task_definitions;
  stage = RuleStage.plan_dependency;
  required_facts = RuleFact.feature ∷ RuleFact.feature_plans ∷ [];
  requires = RuleId.feature_plan_attached ∷ [];
  evaluate = λ context. do
    feature ← require context.feature
    plans ← require context.feature_plans
    plan ← newest_live_plan plans feature.id
    ok (
        attributed RuleId.plan_has_task_definitions TransitionCondition.plan_has_task_definitions
          (plan_has_tasks_finding feature plan));
}

-- `plan.status in (PlanStatus.READY, PlanStatus.ACTIVE)`
abbrev pub may_execute : PlanStatus → Bool
may_execute PlanStatus.ready = true
may_execute PlanStatus.active = true
may_execute _ = false

unfoldable pub plan_is_ready_finding : Feature → FeaturePlan → Finding
plan_is_ready_finding feature plan =
    if not (may_execute plan.status)
    then Finding.violated RuleCode.plan_not_ready (
        ids "feature_plan_id" (plan.id ∷ [])
        ∷ names "plan_status" (plan.status ∷ [])
        ∷ ids "feature_id" (feature.id ∷ [])
        ∷ [])
    else Finding.satisfied

abbrev pub plan_is_ready_rule : Rule
plan_is_ready_rule = record {
  rule_id = RuleId.plan_is_ready;
  condition = TransitionCondition.plan_is_ready;
  stage = RuleStage.plan_dependency;
  required_facts = RuleFact.feature ∷ RuleFact.feature_plans ∷ [];
  requires = RuleId.feature_plan_attached ∷ [];
  evaluate = λ context. do
    feature ← require context.feature
    plans ← require context.feature_plans
    plan ← newest_live_plan plans feature.id
    ok (
        attributed RuleId.plan_is_ready TransitionCondition.plan_is_ready
          (plan_is_ready_finding feature plan));
}

unfoldable pub originating_plan_finding : Task → List FeaturePlan → Finding
unfolding find_last
originating_plan_finding task plans =
    elim (find_last (λ (plan : FeaturePlan). plan.id == task.feature_plan_id) plans) [
      | none ↦
          Finding.violated RuleCode.originating_plan_not_supplied
            (ids "task_id" (task.id ∷ []) ∷ ids "feature_plan_id" (task.feature_plan_id ∷ []) ∷ [])
      | some plan ↦
          if not (same plan.status PlanStatus.active)
          then Finding.violated RuleCode.originating_plan_not_active (
              ids "task_id" (task.id ∷ [])
              ∷ ids "feature_plan_id" (plan.id ∷ [])
              ∷ names "plan_status" (plan.status ∷ [])
              ∷ [])
          else Finding.satisfied
    ]

abbrev pub originating_plan_active_rule : Rule
originating_plan_active_rule = record {
  rule_id = RuleId.originating_plan_active;
  condition = TransitionCondition.originating_plan_active;
  stage = RuleStage.plan_dependency;
  required_facts = RuleFact.task ∷ RuleFact.feature_plans ∷ [];
  requires = [];
  evaluate = λ context. do
    task ← require context.task
    plans ← require context.feature_plans
    ok (
        attributed RuleId.originating_plan_active TransitionCondition.originating_plan_active
          (originating_plan_finding task plans));
}
