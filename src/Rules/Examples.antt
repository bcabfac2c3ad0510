-- ===== src/Rules/Examples.antt =====
-- Runs of the rule engine: a Worker who is active is asked about, and a Feature without a live Plan.
use ai_engineering_os.Base.{
  List, Memᴰ, [], filter, find_last, is_ok, none, ok, refl, some, true, ℕ, ◌∷◌, ◌≡◌, ◌⊎◌,
}
use ai_engineering_os.Domain.Enums.{
  ActorRole, CapabilityType, EvidenceSourceType, EvidenceType, TaskStatus, actor_role_enum,
  capability_type_enum, decision_scope_enum, defect_status_enum, evidence_source_type_enum,
  evidence_type_enum, feature_status_enum, initiator_enum, plan_status_enum, qa_status_enum,
  review_outcome_enum, task_status_enum, work_package_status_enum,
}
use ai_engineering_os.Domain.Conditions.{TransitionCondition, transition_condition_enum}
use ai_engineering_os.Domain.Task.{Task}
use ai_engineering_os.Domain.Evidence.{EvidenceRecord, is_system_evidence}
use ai_engineering_os.Rules.Dependencies.{dependencies_finding, known_task, resolve}
use ai_engineering_os.Rules.Dependencies.Satisfied.{dependencies-accepted}
use ai_engineering_os.Rules.Evidence.{
  mandatory_system_evidence, missing_kinds, system_evidence_finding,
}
use ai_engineering_os.Rules.Evidence.Satisfied.{system_evidence_complete}
use ai_engineering_os.Domain.Actor.{Actor}
use ai_engineering_os.Rules.Context.{RuleContext}
use ai_engineering_os.Rules.Results.{
  RuleEvaluation, RuleResult, RuleStatus, attributed, is_satisfied,
}
use ai_engineering_os.Rules.Codes.{RuleId, rule_code_enum, rule_id_enum}
use ai_engineering_os.Rules.Engine.{evaluate, rule_for}
use ai_engineering_os.Rules.Engine.Coverage.{evaluate-covers, evaluate-passed}
use ai_engineering_os.Rules.Registry.{condition_classification, the_rule_engine}
use ai_engineering_os.Rules.Registry.Gate.{classification-total, memberships}
use ai_engineering_os.Rules.Registry.Sound.{rules-NeverSkips, satisfied-enforced}
use ai_engineering_os.Rules.Authority.{worker_is_active_finding, worker_is_active_rule}

abbrev active_worker : Actor
active_worker = record {
  id = 1;
  role = ActorRole.worker;
  name = "Ada";
  domain = none;
  is_active = true;
  capabilities = CapabilityType.backend ∷ [];
}

abbrev worker_facts : RuleContext
worker_facts = record {
  candidate_worker = some active_worker;
  candidate_reviewers = none;
  requesting_actor = none;
  task = none;
  task_revisions = none;
  feature = none;
  feature_tasks = none;
  feature_plans = none;
  referenced_tasks = none;
  work_packages = none;
  review_decisions = none;
  evidence = none;
  qa_reports = none;
}

-- One condition with a rule, and one without.
abbrev asked : List TransitionCondition
asked = TransitionCondition.worker_is_active ∷ TransitionCondition.task_has_dependencies ∷ []

abbrev active_result : RuleResult
active_result = record {
  rule_id = RuleId.worker_is_active;
  condition = TransitionCondition.worker_is_active;
  status = RuleStatus.passed;
  code = none;
  details = [];
  skipped_because = [];
}

abbrev active_evaluation : RuleEvaluation
active_evaluation = record {
  requested_conditions =
      TransitionCondition.task_has_dependencies ∷ TransitionCondition.worker_is_active ∷ [];
  results = active_result ∷ [];
  unevaluated_conditions = TransitionCondition.task_has_dependencies ∷ [];
}

active_evaluation_lem : evaluate the_rule_engine asked worker_facts ≡ ok active_evaluation
unfolding evaluate attributed worker_is_active_finding
active_evaluation_lem = refl

satisfied-enforced_example :
    (r : RuleResult) × Memᴰ r active_evaluation.results
    × (r.condition ≡ TransitionCondition.worker_is_active)
    × (r.status ≡ RuleStatus.passed)
unfolding is_satisfied
satisfied-enforced_example =
    satisfied-enforced asked worker_facts active_evaluation worker_is_active_rule
      active_evaluation_lem refl (Memᴰ.head refl) (Memᴰ.head refl)

evaluate-passed_example : active_result.status ≡ RuleStatus.passed
unfolding is_satisfied
evaluate-passed_example =
    evaluate-passed the_rule_engine asked worker_facts active_evaluation rules-NeverSkips
      active_evaluation_lem refl active_result (Memᴰ.head refl)

evaluate-covers_example :
    ((r : RuleResult) × Memᴰ r active_evaluation.results
      × (r.condition ≡ TransitionCondition.task_has_dependencies))
    ⊎ ((rule_for the_rule_engine TransitionCondition.task_has_dependencies ≡ none)
        × Memᴰ TransitionCondition.task_has_dependencies active_evaluation.unevaluated_conditions)
evaluate-covers_example =
    evaluate-covers the_rule_engine asked worker_facts active_evaluation
      TransitionCondition.task_has_dependencies active_evaluation_lem (Memᴰ.tail (Memᴰ.head refl))

classification-total_example :
    (memberships TransitionCondition.qa_report_failed ≡ 1)
    × (is_ok (condition_classification TransitionCondition.qa_report_failed) ≡ true)
classification-total_example = classification-total TransitionCondition.qa_report_failed

abbrev task_of : ℕ → TaskStatus → List ℕ → Task
task_of id status dependencies = record {
  id = id;
  feature_id = 10;
  feature_plan_id = 20;
  plan_definition_key = "api";
  title = "Build the API";
  capability = CapabilityType.backend;
  status = status;
  assigned_worker_id = some 1;
  reviewer_id = none;
  dependencies = dependencies;
  active_revision_number = 1;
  created_at = 5;
  updated_at = 5;
}

dependencies-accepted_example :
    (found : Task) × (known_task (task_of 31 TaskStatus.accepted [] ∷ []) 31 ≡ some found)
    × (found.status ≡ TaskStatus.accepted)
unfolding dependencies_finding known_task find_last resolve filter
dependencies-accepted_example =
    dependencies-accepted (task_of 30 TaskStatus.in_progress (31 ∷ []))
      (task_of 31 TaskStatus.accepted [] ∷ []) 31 refl (Memᴰ.head refl)

abbrev record_of : ℕ → EvidenceType → EvidenceRecord
record_of id kind = record {
  id = id;
  source_type = EvidenceSourceType.system;
  evidence_type = kind;
  content = "output";
  checksum = "abc";
  work_package_id = some 40;
  qa_report_id = none;
  verified_by_os = true;
  created_at = 5;
}

abbrev full_evidence : List EvidenceRecord
full_evidence =
    record_of 1 EvidenceType.git_diff
    ∷ record_of 2 EvidenceType.test_output
    ∷ record_of 3 EvidenceType.api_response
    ∷ []

system_evidence_complete_example :
    (required : List EvidenceType) × (mandatory_system_evidence CapabilityType.backend
      ≡ some required)
    × (¬ Memᴰ EvidenceType.test_output required
        ⊎ ((r : EvidenceRecord) × Memᴰ r full_evidence
            × (is_system_evidence r ≡ true)
            × (r.evidence_type ≡ EvidenceType.test_output)))
unfolding system_evidence_finding mandatory_system_evidence missing_kinds filter is_system_evidence
system_evidence_complete_example =
    system_evidence_complete (task_of 30 TaskStatus.submitted []) full_evidence
      EvidenceType.test_output refl
