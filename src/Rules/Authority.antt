-- ===== src/Rules/Authority.antt =====
-- rules/authority.py: evaluation stage 1, who may act.
use ai_engineering_os.Base.{
  List, Option, [], any, distinct_ids, find, if◌then◌else◌, map, none, not, ok, same, some, sorted,
  sorted_by, sorted_members, ℕ, ◌==◌, ◌∷◌, ◌>>=◌,
}
use ai_engineering_os.Domain.Enums.{
  ActorRole, actor_role_enum, capability_type_enum, evidence_type_enum, feature_status_enum,
  initiator_enum, plan_status_enum, qa_status_enum, review_outcome_enum, task_status_enum,
  work_package_status_enum,
}
use ai_engineering_os.Domain.Conditions.{TransitionCondition, transition_condition_enum}
use ai_engineering_os.Domain.Actor.{Actor, can_review, has_capability}
use ai_engineering_os.Domain.Task.{Task, is_assigned_to, is_reviewed_by}
use ai_engineering_os.Domain.Task.Revision.{TaskRevision, work_authors}
use ai_engineering_os.Rules.Codes.{RuleCode, RuleId, RuleStage, rule_code_enum, rule_id_enum}
use ai_engineering_os.Rules.Facts.{RuleFact, rule_fact_enum}
use ai_engineering_os.Rules.Context.{require}
use ai_engineering_os.Rules.Results.{Finding, Rule, RuleDetail, attributed, ids, names}

unfoldable pub worker_capability_finding : Actor → Task → Finding
unfolding has_capability sorted
worker_capability_finding worker task =
    if has_capability worker task.capability
    then Finding.satisfied
    else Finding.violated RuleCode.worker_capability_mismatch (
        names "required_capability" (task.capability ∷ [])
        ∷ names "worker_capabilities" (sorted_members worker.capabilities)
        ∷ ids "worker_id" (worker.id ∷ [])
        ∷ ids "task_id" (task.id ∷ [])
        ∷ [])

abbrev pub worker_capability_matches_rule : Rule
worker_capability_matches_rule = record {
  rule_id = RuleId.worker_capability_matches;
  condition = TransitionCondition.worker_capability_matches;
  stage = RuleStage.actor_authority;
  required_facts = RuleFact.candidate_worker ∷ RuleFact.task ∷ [];
  requires = [];
  evaluate = λ context. do
    worker ← require context.candidate_worker
    task ← require context.task
    ok (
        attributed RuleId.worker_capability_matches TransitionCondition.worker_capability_matches
          (worker_capability_finding worker task));
}

unfoldable pub worker_is_active_finding : Actor → Finding
worker_is_active_finding worker =
    if not (same worker.role ActorRole.worker)
    then Finding.violated RuleCode.actor_is_not_a_worker
        (ids "actor_id" (worker.id ∷ []) ∷ names "actor_role" (worker.role ∷ []) ∷ [])
    else if not worker.is_active
    then Finding.violated RuleCode.worker_inactive (ids "worker_id" (worker.id ∷ []) ∷ [])
    else Finding.satisfied

abbrev pub worker_is_active_rule : Rule
worker_is_active_rule = record {
  rule_id = RuleId.worker_is_active;
  condition = TransitionCondition.worker_is_active;
  stage = RuleStage.actor_authority;
  required_facts = RuleFact.candidate_worker ∷ [];
  requires = [];
  evaluate = λ context. do
    worker ← require context.candidate_worker
    ok (
        attributed RuleId.worker_is_active TransitionCondition.worker_is_active
          (worker_is_active_finding worker));
}

unfoldable pub assigned_worker_finding : Actor → Task → Option ℕ → Finding
unfolding is_assigned_to
assigned_worker_finding requester task none =
    Finding.violated RuleCode.task_has_no_assigned_worker
      (ids "task_id" (task.id ∷ []) ∷ ids "requester_id" (requester.id ∷ []) ∷ [])
assigned_worker_finding requester task (some assigned) =
    if not (is_assigned_to task requester.id)
    then Finding.violated RuleCode.requester_is_not_the_assigned_worker (
        ids "task_id" (task.id ∷ [])
        ∷ ids "assigned_worker_id" (assigned ∷ [])
        ∷ ids "requester_id" (requester.id ∷ [])
        ∷ [])
    else Finding.satisfied

abbrev pub requester_is_assigned_worker_rule : Rule
requester_is_assigned_worker_rule = record {
  rule_id = RuleId.requester_is_assigned_worker;
  condition = TransitionCondition.requester_is_assigned_worker;
  stage = RuleStage.actor_authority;
  required_facts = RuleFact.requesting_actor ∷ RuleFact.task ∷ [];
  requires = [];
  evaluate = λ context. do
    requester ← require context.requesting_actor
    task ← require context.task
    ok (
        attributed RuleId.requester_is_assigned_worker
          TransitionCondition.requester_is_assigned_worker
          (assigned_worker_finding requester task task.assigned_worker_id));
}

abbrev candidate_ids : List Actor → RuleDetail
candidate_ids candidates = ids "candidate_reviewer_ids" (map (λ (a : Actor). a.id) candidates)

abbrev identity : Task → ℕ → List RuleDetail
identity task reviewer = ids "task_id" (task.id ∷ []) ∷ ids "reviewer_id" (reviewer ∷ []) ∷ []

-- The checks on the Actor that the Task names, once it is found among the candidates.
unfoldable pub routed_reviewer_finding : Task → List TaskRevision → ℕ → Actor → Finding
unfolding can_review any sorted work_authors
routed_reviewer_finding task revisions reviewer routed =
    if not (can_review routed task.capability)
    then Finding.violated RuleCode.reviewer_capability_mismatch (
        names "required_capability" (task.capability ∷ [])
        ∷ names "reviewer_capabilities" (sorted_members routed.capabilities)
        ∷ identity task reviewer)
    else if any (λ author. author == routed.id) (work_authors task revisions)
    then Finding.violated RuleCode.reviewer_performed_the_work (
        ids "work_author_ids" (sorted_by (λ a. a) (distinct_ids (work_authors task revisions)))
        ∷ identity task reviewer)
    else Finding.satisfied

unfoldable pub reviewer_finding : Task → List Actor → List TaskRevision → Option ℕ → Finding
unfolding routed_reviewer_finding find is_reviewed_by
reviewer_finding task candidates revisions none =
    Finding.violated RuleCode.no_reviewer_routed
      (ids "task_id" (task.id ∷ []) ∷ candidate_ids candidates ∷ [])
reviewer_finding task candidates revisions (some reviewer) =
    elim (find (λ (actor : Actor). is_reviewed_by task actor.id) candidates) [
      | none ↦
          Finding.violated RuleCode.reviewer_not_eligible
            (candidate_ids candidates ∷ identity task reviewer)
      | some routed ↦ routed_reviewer_finding task revisions reviewer routed
    ]

abbrev pub reviewer_assigned_rule : Rule
reviewer_assigned_rule = record {
  rule_id = RuleId.reviewer_assigned;
  condition = TransitionCondition.reviewer_assigned;
  stage = RuleStage.actor_authority;
  required_facts = RuleFact.task ∷ RuleFact.candidate_reviewers ∷ RuleFact.task_revisions ∷ [];
  requires = [];
  evaluate = λ context. do
    task ← require context.task
    candidates ← require context.candidate_reviewers
    revisions ← require context.task_revisions
    ok (
        attributed RuleId.reviewer_assigned TransitionCondition.reviewer_assigned
          (reviewer_finding task candidates revisions task.reviewer_id));
}
