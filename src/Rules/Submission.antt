-- ===== src/Rules/Submission.antt =====
-- rules/submission.py: what a Worker hands over.
use ai_engineering_os.Base.{
  List, Option, [], find, if◌then◌else◌, is_empty, is_some, none, not, ok, some, ◌==◌, ◌∷◌, ◌>>=◌,
}
use ai_engineering_os.Domain.Enums.{
  actor_role_enum, capability_type_enum, evidence_type_enum, feature_status_enum, initiator_enum,
  plan_status_enum, qa_status_enum, review_outcome_enum, task_status_enum, work_package_status_enum,
}
use ai_engineering_os.Domain.Conditions.{TransitionCondition, transition_condition_enum}
use ai_engineering_os.Domain.Task.{Task}
use ai_engineering_os.Domain.Task.Revision.{TaskRevision}
use ai_engineering_os.Domain.WorkPackage.{WorkPackage}
use ai_engineering_os.Rules.Codes.{RuleCode, RuleId, RuleStage, rule_code_enum, rule_id_enum}
use ai_engineering_os.Rules.Facts.{RuleFact, rule_fact_enum}
use ai_engineering_os.Rules.Context.{require}
use ai_engineering_os.Rules.Results.{Finding, Rule, attributed, counts, ids}
use ai_engineering_os.Rules.Selection.{active_revision}

-- `_active_work_package`, from the facts that it reads.
unfoldable pub package_of : Option TaskRevision → List WorkPackage → Option WorkPackage
unfolding find
package_of none packages = none
package_of (some revision) packages = find (λ p. p.task_revision_id == revision.id) packages

unfoldable pub active_work_package :
    Task → List TaskRevision → List WorkPackage → Option WorkPackage
unfolding active_revision package_of
active_work_package task revisions packages = package_of (active_revision task revisions) packages

unfoldable pub package_present_finding :
    Task → List TaskRevision → List WorkPackage → Option TaskRevision → Finding
unfolding active_work_package
package_present_finding task revisions packages none =
    Finding.violated RuleCode.no_active_revision (
      ids "task_id" (task.id ∷ [])
      ∷ counts "active_revision_number" (task.active_revision_number ∷ [])
      ∷ [])
package_present_finding task revisions packages (some revision) =
    if not (is_some (active_work_package task revisions packages))
    then Finding.violated RuleCode.no_work_package_submitted
        (ids "task_id" (task.id ∷ []) ∷ ids "task_revision_id" (revision.id ∷ []) ∷ [])
    else Finding.satisfied

abbrev pub work_package_present_rule : Rule
work_package_present_rule = record {
  rule_id = RuleId.work_package_present;
  condition = TransitionCondition.work_package_present;
  stage = RuleStage.evidence;
  required_facts = RuleFact.task ∷ RuleFact.task_revisions ∷ RuleFact.work_packages ∷ [];
  requires = [];
  evaluate = λ context. do
    task ← require context.task
    revisions ← require context.task_revisions
    packages ← require context.work_packages
    ok (
        attributed RuleId.work_package_present TransitionCondition.work_package_present
          (package_present_finding task revisions packages (active_revision task revisions)));
}

-- `_no_work_package`
abbrev no_work_package : Task → Finding
no_work_package task =
    Finding.violated RuleCode.no_work_package_submitted (ids "task_id" (task.id ∷ []) ∷ [])

unfoldable pub claims_finding : Task → Option WorkPackage → Finding
claims_finding task none = no_work_package task
claims_finding task (some work_package) =
    if is_empty work_package.claims
    then Finding.violated RuleCode.no_claims_declared
        (ids "work_package_id" (work_package.id ∷ []) ∷ ids "task_id" (task.id ∷ []) ∷ [])
    else Finding.satisfied

abbrev pub claims_defined_rule : Rule
claims_defined_rule = record {
  rule_id = RuleId.claims_defined;
  condition = TransitionCondition.claims_defined;
  stage = RuleStage.evidence;
  required_facts = RuleFact.task ∷ RuleFact.task_revisions ∷ RuleFact.work_packages ∷ [];
  requires = RuleId.work_package_present ∷ [];
  evaluate = λ context. do
    task ← require context.task
    revisions ← require context.task_revisions
    packages ← require context.work_packages
    ok (
        attributed RuleId.claims_defined TransitionCondition.claims_defined
          (claims_finding task (active_work_package task revisions packages)));
}

unfoldable pub guide_finding : Task → Option WorkPackage → Finding
guide_finding task none = no_work_package task
guide_finding task (some work_package) =
    if not (is_some work_package.verification_guide)
    then Finding.violated RuleCode.no_verification_guide
        (ids "work_package_id" (work_package.id ∷ []) ∷ ids "task_id" (task.id ∷ []) ∷ [])
    else Finding.satisfied

abbrev pub verification_guide_present_rule : Rule
verification_guide_present_rule = record {
  rule_id = RuleId.verification_guide_present;
  condition = TransitionCondition.verification_guide_present;
  stage = RuleStage.evidence;
  required_facts = RuleFact.task ∷ RuleFact.task_revisions ∷ RuleFact.work_packages ∷ [];
  requires = RuleId.work_package_present ∷ [];
  evaluate = λ context. do
    task ← require context.task
    revisions ← require context.task_revisions
    packages ← require context.work_packages
    ok (
        attributed RuleId.verification_guide_present TransitionCondition.verification_guide_present
          (guide_finding task (active_work_package task revisions packages)));
}
