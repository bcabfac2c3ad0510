-- ===== src/Core/ContextLoader.antt =====
-- core/context_loader.py: the facts that one evaluation is given, read from the database.
use ai_engineering_os.Base.{
  Bool, List, Option, Result, [], any, err, filter, if◌then◌else◌, leb, map, none, not, ok, some,
  sorted, ℕ, ◌++◌, ◌==◌, ◌∷◌, ◌>>=◌,
}
use ai_engineering_os.Storage.Database.{
  Database, get_feature, get_history, get_task, get_work_package, list_active_by_role,
  list_evidence_by_qa_report, list_evidence_by_work_package, list_plans_by_feature,
  list_reports_by_feature, list_reviews_by_task_revision, list_tasks_by_feature,
}
use ai_engineering_os.Domain.Actor.{Actor}
use ai_engineering_os.Domain.Task.{Task}
use ai_engineering_os.Domain.Task.Revision.{TaskRevision}
use ai_engineering_os.Domain.Feature.{Feature}
use ai_engineering_os.Domain.Qa.{QaDefect, QaReport}
use ai_engineering_os.Domain.Evidence.{EvidenceRecord}
use ai_engineering_os.Domain.WorkPackage.{WorkPackage}
use ai_engineering_os.Domain.Decision.{ReviewDecision}
use ai_engineering_os.Domain.Enums.{
  ActorRole, actor_role_enum, capability_type_enum, evidence_type_enum, feature_status_enum,
  initiator_enum, plan_status_enum, qa_status_enum, review_outcome_enum, task_status_enum,
  work_package_status_enum,
}
use ai_engineering_os.Rules.Context.{RuleContext}

unfoldable pub concat {ℓ} : {A : Type ℓ} → List (List A) → List A
concat [] = []
concat (xs ∷ rest) = xs ++ concat rest

-- `_work_packages_of`
unfoldable pub work_packages_of : Database → List TaskRevision → Result (List WorkPackage)
unfolding get_work_package
work_packages_of db [] = ok []
work_packages_of db (revision ∷ rest) = do
  packages ← named revision.work_package_id
  later ← work_packages_of db rest
  ok (packages ++ later)
  where
    named : Option ℕ → Result (List WorkPackage)
    named none = ok []
    named (some package_id) = do
      package_found ← get_work_package db package_id
      ok (package_found ∷ [])

-- `_review_decisions_of`
unfoldable pub review_decisions_of : Database → List TaskRevision → List ReviewDecision
unfolding list_reviews_by_task_revision concat
review_decisions_of db revisions =
    concat (map (λ (r : TaskRevision). list_reviews_by_task_revision db r.id) revisions)

abbrev given {ℓ} : {A : Type ℓ} → Option A → List A
given none = []
given (some x) = x ∷ []

-- The ids that a Task's dependencies and the scopes of QA defects name.
unfoldable pub wanted_tasks : Option Task → List QaReport → List ℕ
unfolding concat
wanted_tasks task qa_reports =
    concat (map (λ (t : Task). t.dependencies) (given task))
    ++ concat (
        map (λ (r : QaReport). concat (map (λ (d : QaDefect). given d.scope_task_id) r.defects))
          qa_reports)

unfoldable pub is_id_in : List ℕ → ℕ → Bool
unfolding any
is_id_in ids entity_id = any (λ other. other == entity_id) ids

-- The members of the set, each once.
unfoldable pub id_set : List ℕ → List ℕ
unfolding is_id_in
id_set [] = []
id_set (entity_id ∷ rest) =
    let later = id_set rest in if is_id_in rest entity_id then later else entity_id ∷ later

-- An identifier that resolves to nothing is left out.
unfoldable pub resolved_tasks : Database → List ℕ → List Task
unfolding get_task
resolved_tasks db [] = []
resolved_tasks db (task_id ∷ rest) = found (get_task db task_id) ++ resolved_tasks db rest
  where
    found : Result Task → List Task
    found (ok task) = task ∷ []
    found (err raised) = []

-- `_referenced_tasks`
unfoldable pub referenced_tasks : Database → Option Task → List Task → List QaReport → List Task
unfolding wanted_tasks id_set filter sorted resolved_tasks is_id_in
referenced_tasks db task feature_tasks qa_reports = resolved_tasks db (
    sorted leb (
      filter (λ task_id. not (is_id_in (map (λ (t : Task). t.id) feature_tasks) task_id))
        (id_set (wanted_tasks task qa_reports))))

-- `_evidence_closure`, unfiltered.
unfoldable pub loaded_evidence : Database → List WorkPackage → List QaReport → List EvidenceRecord
unfolding list_evidence_by_work_package list_evidence_by_qa_report concat
loaded_evidence db work_packages qa_reports =
    concat (map (λ (p : WorkPackage). list_evidence_by_work_package db p.id) work_packages)
    ++ concat (map (λ (r : QaReport). list_evidence_by_qa_report db r.id) qa_reports)

unfoldable pub resolved_feature : Database → Option Feature → Option Task → Result (Option Feature)
unfolding get_feature
resolved_feature db (some feature) task = ok (some feature)
resolved_feature db none none = ok none
resolved_feature db none (some task) = do
  feature ← get_feature db task.feature_id
  ok (some feature)

unfoldable pub revisions_of : Database → Option Task → Result (List TaskRevision)
unfolding get_history
revisions_of db none = ok []
revisions_of db (some task) = do history ← get_history db task.id; ok history.revisions

-- What is read of a Feature, when there is one.
abbrev of_feature : {Row : Type 0} → (ℕ → List Row) → Option Feature → List Row
of_feature query none = []
of_feature query (some feature) = query feature.id

abbrev or_else {ℓ} : {A : Type ℓ} → Option A → A → A
or_else none x = x
or_else (some y) x = y

unfoldable pub load_rule_context :
    Database
    → Option Feature
    → Option Task
    → Option Actor
    → Option Actor
    → Option (List Actor)
    → Result RuleContext
unfolding resolved_feature revisions_of work_packages_of review_decisions_of list_tasks_by_feature
    list_plans_by_feature list_reports_by_feature list_active_by_role referenced_tasks
    loaded_evidence
load_rule_context db feature task requesting_actor candidate_worker candidate_reviewers = do
  resolved ← resolved_feature db feature task
  revisions ← revisions_of db task
  work_packages ← work_packages_of db revisions
  let feature_tasks = of_feature (list_tasks_by_feature db) resolved
  let qa_reports = of_feature (list_reports_by_feature db) resolved
  ok (record {
    candidate_worker = candidate_worker;
    candidate_reviewers =
        some (or_else candidate_reviewers (list_active_by_role db ActorRole.reviewer));
    requesting_actor = requesting_actor;
    task = task;
    task_revisions = some revisions;
    feature = resolved;
    feature_tasks = some feature_tasks;
    feature_plans = some (of_feature (list_plans_by_feature db) resolved);
    referenced_tasks = some (referenced_tasks db task feature_tasks qa_reports);
    work_packages = some work_packages;
    review_decisions = some (review_decisions_of db revisions);
    evidence = some (loaded_evidence db work_packages qa_reports);
    qa_reports = some qa_reports;
  })
