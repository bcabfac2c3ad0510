-- ===== src/Rules/Context.antt =====
-- rules/context.py: the facts that one evaluation may read. `none` is "not supplied"; an empty list
-- is a fact. The check that collections are tuples has no counterpart: a list cannot be changed.
use ai_engineering_os.Base.{
  Bool, Error, List, Option, Result, err, filter, is_some, none, not, ok, some, sorted,
  sorted_members,
}
use ai_engineering_os.Domain.Actor.{Actor}
use ai_engineering_os.Domain.Task.{Task}
use ai_engineering_os.Domain.Task.Revision.{TaskRevision}
use ai_engineering_os.Domain.Feature.{Feature}
use ai_engineering_os.Domain.Plan.{FeaturePlan}
use ai_engineering_os.Domain.Qa.{QaReport}
use ai_engineering_os.Domain.Evidence.{EvidenceRecord}
use ai_engineering_os.Domain.WorkPackage.{WorkPackage}
use ai_engineering_os.Domain.Decision.{ReviewDecision}
use ai_engineering_os.Rules.Facts.{RuleFact, rule_fact_enum}

pub record RuleContext : Type 0 where
  pub candidate_worker : Option Actor
  pub candidate_reviewers : Option (List Actor)
  pub requesting_actor : Option Actor
  pub task : Option Task
  pub task_revisions : Option (List TaskRevision)
  pub feature : Option Feature
  pub feature_tasks : Option (List Task)
  pub feature_plans : Option (List FeaturePlan)
  pub referenced_tasks : Option (List Task)
  pub work_packages : Option (List WorkPackage)
  pub review_decisions : Option (List ReviewDecision)
  pub evidence : Option (List EvidenceRecord)
  pub qa_reports : Option (List QaReport)

unfoldable pub has : RuleContext → RuleFact → Bool
has context RuleFact.candidate_worker = is_some context.candidate_worker
has context RuleFact.candidate_reviewers = is_some context.candidate_reviewers
has context RuleFact.requesting_actor = is_some context.requesting_actor
has context RuleFact.task = is_some context.task
has context RuleFact.task_revisions = is_some context.task_revisions
has context RuleFact.feature = is_some context.feature
has context RuleFact.feature_tasks = is_some context.feature_tasks
has context RuleFact.feature_plans = is_some context.feature_plans
has context RuleFact.referenced_tasks = is_some context.referenced_tasks
has context RuleFact.work_packages = is_some context.work_packages
has context RuleFact.review_decisions = is_some context.review_decisions
has context RuleFact.evidence = is_some context.evidence
has context RuleFact.qa_reports = is_some context.qa_reports

unfoldable pub missing : RuleContext → List RuleFact → List RuleFact
unfolding has filter sorted
missing context facts = filter (λ fact. not (has context fact)) (sorted_members facts)

-- The body of each `require_...`: the fact, or the error that fails closed.
abbrev pub require {ℓ} : {A : Type ℓ} → Option A → Result A
require none = err Error.rule_context_incomplete
require (some fact) = ok fact
