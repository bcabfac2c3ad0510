-- ===== src/Rules/Facts.antt =====
-- rules/context.py: the facts that a rule may require.
use ai_engineering_os.Base.{ℕ, String, ◌≡◌, refl, some, List, [], ◌∷◌, get_elem?, StrEnum}

pub data RuleFact : Type 0 where
  candidate_worker candidate_reviewers requesting_actor task task_revisions feature : RuleFact
  feature_tasks feature_plans referenced_tasks work_packages review_decisions : RuleFact
  evidence qa_reports : RuleFact

abbrev rule_fact_members : List RuleFact
rule_fact_members =
    RuleFact.candidate_worker ∷ RuleFact.candidate_reviewers ∷ RuleFact.requesting_actor
    ∷ RuleFact.task ∷ RuleFact.task_revisions ∷ RuleFact.feature ∷ RuleFact.feature_tasks
    ∷ RuleFact.feature_plans ∷ RuleFact.referenced_tasks ∷ RuleFact.work_packages
    ∷ RuleFact.review_decisions ∷ RuleFact.evidence ∷ RuleFact.qa_reports ∷ []

abbrev rule_fact_index : RuleFact → ℕ
rule_fact_index RuleFact.candidate_worker = 0
rule_fact_index RuleFact.candidate_reviewers = 1
rule_fact_index RuleFact.requesting_actor = 2
rule_fact_index RuleFact.task = 3
rule_fact_index RuleFact.task_revisions = 4
rule_fact_index RuleFact.feature = 5
rule_fact_index RuleFact.feature_tasks = 6
rule_fact_index RuleFact.feature_plans = 7
rule_fact_index RuleFact.referenced_tasks = 8
rule_fact_index RuleFact.work_packages = 9
rule_fact_index RuleFact.review_decisions = 10
rule_fact_index RuleFact.evidence = 11
rule_fact_index RuleFact.qa_reports = 12

abbrev rule_fact_label : RuleFact → String
rule_fact_label RuleFact.candidate_worker = "candidate_worker"
rule_fact_label RuleFact.candidate_reviewers = "candidate_reviewers"
rule_fact_label RuleFact.requesting_actor = "requesting_actor"
rule_fact_label RuleFact.task = "task"
rule_fact_label RuleFact.task_revisions = "task_revisions"
rule_fact_label RuleFact.feature = "feature"
rule_fact_label RuleFact.feature_tasks = "feature_tasks"
rule_fact_label RuleFact.feature_plans = "feature_plans"
rule_fact_label RuleFact.referenced_tasks = "referenced_tasks"
rule_fact_label RuleFact.work_packages = "work_packages"
rule_fact_label RuleFact.review_decisions = "review_decisions"
rule_fact_label RuleFact.evidence = "evidence"
rule_fact_label RuleFact.qa_reports = "qa_reports"

pub rule_fact_index_members :
    (a : RuleFact) → get_elem? rule_fact_members (rule_fact_index a) ≡ some a
rule_fact_index_members RuleFact.candidate_worker = refl
rule_fact_index_members RuleFact.candidate_reviewers = refl
rule_fact_index_members RuleFact.requesting_actor = refl
rule_fact_index_members RuleFact.task = refl
rule_fact_index_members RuleFact.task_revisions = refl
rule_fact_index_members RuleFact.feature = refl
rule_fact_index_members RuleFact.feature_tasks = refl
rule_fact_index_members RuleFact.feature_plans = refl
rule_fact_index_members RuleFact.referenced_tasks = refl
rule_fact_index_members RuleFact.work_packages = refl
rule_fact_index_members RuleFact.review_decisions = refl
rule_fact_index_members RuleFact.evidence = refl
rule_fact_index_members RuleFact.qa_reports = refl

instance abbrev pub rule_fact_enum : StrEnum RuleFact
rule_fact_enum = record {
  members = rule_fact_members;
  index = rule_fact_index;
  label = rule_fact_label;
  index_members = rule_fact_index_members;
}
