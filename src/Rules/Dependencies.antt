-- ===== src/Rules/Dependencies.antt =====
-- rules/dependencies.py: a Task waits for the Tasks that it depends on.
pub mod Satisfied
use ai_engineering_os.Base.{
  Bool, List, Option, [], filter, find_last, if◌then◌else◌, is_empty, is_some, map, none, not, ok,
  same, some, ℕ, ◌++◌, ◌==◌, ◌∷◌, ◌>>=◌,
}
use ai_engineering_os.Domain.Enums.{
  TaskStatus, actor_role_enum, capability_type_enum, evidence_type_enum, feature_status_enum,
  initiator_enum, plan_status_enum, qa_status_enum, review_outcome_enum, task_status_enum,
  work_package_status_enum,
}
use ai_engineering_os.Domain.Conditions.{TransitionCondition, transition_condition_enum}
use ai_engineering_os.Domain.Task.{Task}
use ai_engineering_os.Rules.Codes.{RuleCode, RuleId, RuleStage, rule_code_enum, rule_id_enum}
use ai_engineering_os.Rules.Facts.{RuleFact, rule_fact_enum}
use ai_engineering_os.Rules.Context.{require}
use ai_engineering_os.Rules.Results.{Finding, Rule, attributed, ids, names}

-- `known.get(id)`, of `{task.id: task for task in tasks}`.
unfoldable pub known_task : List Task → ℕ → Option Task
unfolding find_last
known_task tasks id = find_last (λ (task : Task). task.id == id) tasks

-- `[known[dependency] for dependency in ids if dependency in known]`
unfoldable pub resolve : List Task → List ℕ → List Task
unfolding known_task
resolve tasks [] = []
resolve tasks (id ∷ rest) = elim (known_task tasks id) [
  | none ↦ resolve tasks rest
  | some task ↦ task ∷ resolve tasks rest
]

abbrev pub is_accepted : Task → Bool
is_accepted task = same task.status TaskStatus.accepted

unfoldable pub dependencies_finding : Task → List Task → Finding
unfolding resolve filter known_task
dependencies_finding task known =
    let unresolved = filter (λ id. not (is_some (known_task known id))) task.dependencies in
    let unaccepted = filter (λ t. not (is_accepted t)) (resolve known task.dependencies) in
    if not (is_empty unresolved)
    then Finding.violated RuleCode.dependency_facts_missing
        (ids "unresolved_dependencies" unresolved ∷ ids "task_id" (task.id ∷ []) ∷ [])
    else if not (is_empty unaccepted)
    then Finding.violated RuleCode.dependency_not_accepted (
        ids "unaccepted_dependencies" (map (λ (t : Task). t.id) unaccepted)
        ∷ names "unaccepted_dependency_statuses" (map (λ (t : Task). t.status) unaccepted)
        ∷ ids "task_id" (task.id ∷ [])
        ∷ [])
    else Finding.satisfied

abbrev pub dependencies_accepted_rule : Rule
dependencies_accepted_rule = record {
  rule_id = RuleId.dependencies_accepted;
  condition = TransitionCondition.dependencies_accepted;
  stage = RuleStage.plan_dependency;
  required_facts = RuleFact.task ∷ RuleFact.feature_tasks ∷ RuleFact.referenced_tasks ∷ [];
  requires = [];
  evaluate = λ context. do
    task ← require context.task
    feature_tasks ← require context.feature_tasks
    referenced_tasks ← require context.referenced_tasks
    ok (
        attributed RuleId.dependencies_accepted TransitionCondition.dependencies_accepted
          (dependencies_finding task (feature_tasks ++ referenced_tasks)));
}
