-- ===== src/Rules/Registry/Sound.antt =====
-- rules/registry.py: the registered rules, as an engine whose verdict can be trusted.
use mathlib.Core.Path.{subst}
use ai_engineering_os.Base.{
  List, Memᴰ, Option, Result, [], bind_elim, false, find-none, inl, inr, none, ok, refl, same,
  same_iff, some, sym, true, ◌>>=◌, ◌∷◌, ◌≡◌,
}
use ai_engineering_os.Rules.Context.{RuleContext, require}
use ai_engineering_os.Rules.Engine.Coverage.{evaluate-covers, evaluate-passed}
use ai_engineering_os.Rules.Registry.{rules, the_rule_engine}
use ai_engineering_os.Rules.Results.{
  Finding, Rule, RuleEvaluation, RuleResult, RuleStatus, attributed, is_satisfied, is_skipped,
}
use ai_engineering_os.Rules.Engine.Judging.{NeverSkips}
use ai_engineering_os.Rules.Engine.{rule_for, evaluate as evaluate_rules}
use ai_engineering_os.Rules.Codes.{RuleId, rule_code_enum, rule_id_enum}
use ai_engineering_os.Domain.Conditions.{TransitionCondition, transition_condition_enum}
use ai_engineering_os.Rules.Authority.{
  requester_is_assigned_worker_rule, reviewer_assigned_rule, worker_capability_matches_rule,
  worker_is_active_rule,
}
use ai_engineering_os.Rules.Dependencies.{dependencies_accepted_rule}
use ai_engineering_os.Rules.Planning.{
  feature_plan_attached_rule, newest_live_plan, originating_plan_active_rule,
  plan_has_task_definitions_rule, plan_is_ready_rule,
}
use ai_engineering_os.Rules.Submission.{
  claims_defined_rule, verification_guide_present_rule, work_package_present_rule,
}
use ai_engineering_os.Rules.Evidence.{feature_evidence_required_rule, system_evidence_required_rule}
use ai_engineering_os.Rules.Verification.{
  qa_report_passed_rule, review_decision_approved_rule, test_execution_evidence_present_rule,
}
use ai_engineering_os.Rules.Acceptance.{
  all_tasks_accepted_rule, implementation_tasks_accepted_rule, qa_final_pass_recorded_rule,
}
use ai_engineering_os.Rules.Acceptance.Defects.{qa_in_scope_zero_defects_rule}

attributed-asked :
    (rule_id : RuleId) (c : TransitionCondition) (finding : Finding) {r : RuleResult}
    → ok (attributed rule_id c finding) ≡ ok r
    → is_skipped r.status ≡ false
unfolding attributed
attributed-asked rule_id c Finding.satisfied {r} h =
    let p : attributed rule_id c Finding.satisfied ≡ r = cc h in
    subst (λ (x : RuleResult). is_skipped x.status ≡ false) p refl
attributed-asked rule_id c (Finding.violated code details) {r} h =
    let p : attributed rule_id c (Finding.violated code details) ≡ r = cc h in
    subst (λ (x : RuleResult). is_skipped x.status ≡ false) p refl

-- A fact that is asked for comes before what is made of it.
require_then {ℓ} :
    {A : Type ℓ} (fact : Option A) (next : A → Result RuleResult)
    → ((x : A) (r : RuleResult) → next x ≡ ok r → is_skipped r.status ≡ false)
    → (r : RuleResult) → (require fact >>= next) ≡ ok r
    → is_skipped r.status ≡ false
require_then none next k r h = cc h
require_then (some x) next k r h = k x r h

worker_is_active_rule-NeverSkips : NeverSkips worker_is_active_rule
worker_is_active_rule-NeverSkips context =
    require_then context.candidate_worker _ (λ a. λ r h. attributed-asked _ _ _ h)

worker_capability_matches_rule-NeverSkips : NeverSkips worker_capability_matches_rule
worker_capability_matches_rule-NeverSkips context =
    require_then context.candidate_worker _
      (λ a. require_then context.task _ (λ b. λ r h. attributed-asked _ _ _ h))

requester_is_assigned_worker_rule-NeverSkips : NeverSkips requester_is_assigned_worker_rule
requester_is_assigned_worker_rule-NeverSkips context =
    require_then context.requesting_actor _
      (λ a. require_then context.task _ (λ b. λ r h. attributed-asked _ _ _ h))

reviewer_assigned_rule-NeverSkips : NeverSkips reviewer_assigned_rule
reviewer_assigned_rule-NeverSkips context = require_then context.task _ (λ a.
    require_then context.candidate_reviewers _
      (λ b. require_then context.task_revisions _ (λ c. λ r h. attributed-asked _ _ _ h)))

feature_plan_attached_rule-NeverSkips : NeverSkips feature_plan_attached_rule
feature_plan_attached_rule-NeverSkips context =
    require_then context.feature _
      (λ a. require_then context.feature_plans _ (λ b. λ r h. attributed-asked _ _ _ h))

plan_has_task_definitions_rule-NeverSkips : NeverSkips plan_has_task_definitions_rule
plan_has_task_definitions_rule-NeverSkips context = require_then context.feature _ (λ a.
    require_then context.feature_plans _ (λ b. λ r h.
      let (plan, _, k) = bind_elim (newest_live_plan b a.id) _ h in attributed-asked _ _ _ k))

plan_is_ready_rule-NeverSkips : NeverSkips plan_is_ready_rule
plan_is_ready_rule-NeverSkips context = require_then context.feature _ (λ a.
    require_then context.feature_plans _ (λ b. λ r h.
      let (plan, _, k) = bind_elim (newest_live_plan b a.id) _ h in attributed-asked _ _ _ k))

originating_plan_active_rule-NeverSkips : NeverSkips originating_plan_active_rule
originating_plan_active_rule-NeverSkips context =
    require_then context.task _
      (λ a. require_then context.feature_plans _ (λ b. λ r h. attributed-asked _ _ _ h))

dependencies_accepted_rule-NeverSkips : NeverSkips dependencies_accepted_rule
dependencies_accepted_rule-NeverSkips context = require_then context.task _ (λ a.
    require_then context.feature_tasks _
      (λ b. require_then context.referenced_tasks _ (λ c. λ r h. attributed-asked _ _ _ h)))

work_package_present_rule-NeverSkips : NeverSkips work_package_present_rule
work_package_present_rule-NeverSkips context = require_then context.task _ (λ a.
    require_then context.task_revisions _
      (λ b. require_then context.work_packages _ (λ c. λ r h. attributed-asked _ _ _ h)))

claims_defined_rule-NeverSkips : NeverSkips claims_defined_rule
claims_defined_rule-NeverSkips context = require_then context.task _ (λ a.
    require_then context.task_revisions _
      (λ b. require_then context.work_packages _ (λ c. λ r h. attributed-asked _ _ _ h)))

verification_guide_present_rule-NeverSkips : NeverSkips verification_guide_present_rule
verification_guide_present_rule-NeverSkips context = require_then context.task _ (λ a.
    require_then context.task_revisions _
      (λ b. require_then context.work_packages _ (λ c. λ r h. attributed-asked _ _ _ h)))

system_evidence_required_rule-NeverSkips : NeverSkips system_evidence_required_rule
system_evidence_required_rule-NeverSkips context =
    require_then context.task _
      (λ a. require_then context.evidence _ (λ b. λ r h. attributed-asked _ _ _ h))

feature_evidence_required_rule-NeverSkips : NeverSkips feature_evidence_required_rule
feature_evidence_required_rule-NeverSkips context = require_then context.feature _ (λ a.
    require_then context.evidence _
      (λ b. require_then context.qa_reports _ (λ c. λ r h. attributed-asked _ _ _ h)))

review_decision_approved_rule-NeverSkips : NeverSkips review_decision_approved_rule
review_decision_approved_rule-NeverSkips context = require_then context.task _ (λ a.
    require_then context.task_revisions _
      (λ b. require_then context.review_decisions _ (λ c. λ r h. attributed-asked _ _ _ h)))

qa_report_passed_rule-NeverSkips : NeverSkips qa_report_passed_rule
qa_report_passed_rule-NeverSkips context = require_then context.task _ (λ a.
    require_then context.task_revisions _
      (λ b. require_then context.qa_reports _ (λ c. λ r h. attributed-asked _ _ _ h)))

test_execution_evidence_present_rule-NeverSkips : NeverSkips test_execution_evidence_present_rule
test_execution_evidence_present_rule-NeverSkips context = require_then context.task _ (λ a.
    require_then context.task_revisions _ (λ b.
      require_then context.qa_reports _
        (λ c. require_then context.evidence _ (λ d. λ r h. attributed-asked _ _ _ h))))

implementation_tasks_accepted_rule-NeverSkips : NeverSkips implementation_tasks_accepted_rule
implementation_tasks_accepted_rule-NeverSkips context =
    require_then context.feature _
      (λ a. require_then context.feature_tasks _ (λ b. λ r h. attributed-asked _ _ _ h))

all_tasks_accepted_rule-NeverSkips : NeverSkips all_tasks_accepted_rule
all_tasks_accepted_rule-NeverSkips context =
    require_then context.feature _
      (λ a. require_then context.feature_tasks _ (λ b. λ r h. attributed-asked _ _ _ h))

qa_final_pass_recorded_rule-NeverSkips : NeverSkips qa_final_pass_recorded_rule
qa_final_pass_recorded_rule-NeverSkips context =
    require_then context.feature _
      (λ a. require_then context.qa_reports _ (λ b. λ r h. attributed-asked _ _ _ h))

qa_in_scope_zero_defects_rule-NeverSkips : NeverSkips qa_in_scope_zero_defects_rule
qa_in_scope_zero_defects_rule-NeverSkips context = require_then context.feature _ (λ a.
    require_then context.qa_reports _ (λ b.
      require_then context.feature_tasks _
        (λ c. require_then context.referenced_tasks _ (λ d. λ r h. attributed-asked _ _ _ h))))

none_left : (x : Rule) → Memᴰ x [] → NeverSkips x
none_left x m = elim m [ ]

and_rest :
    {rule : Rule} {rest : List Rule}
    → NeverSkips rule
    → ((x : Rule) → Memᴰ x rest → NeverSkips x)
    → (x : Rule) → Memᴰ x (rule ∷ rest)
    → NeverSkips x
and_rest {rule} {rest} k l x (Memᴰ.head e) = subst (λ y. NeverSkips y) (sym e) k
and_rest {rule} {rest} k l x (Memᴰ.tail m) = l x m

-- No registered rule answers "skipped".
pub rules-NeverSkips : (rule : Rule) → Memᴰ rule rules → NeverSkips rule
rules-NeverSkips = and_rest worker_is_active_rule-NeverSkips (
    and_rest worker_capability_matches_rule-NeverSkips (
      and_rest requester_is_assigned_worker_rule-NeverSkips (
        and_rest reviewer_assigned_rule-NeverSkips (
          and_rest feature_plan_attached_rule-NeverSkips (
            and_rest plan_has_task_definitions_rule-NeverSkips (
              and_rest plan_is_ready_rule-NeverSkips (
                and_rest originating_plan_active_rule-NeverSkips (
                  and_rest dependencies_accepted_rule-NeverSkips (
                    and_rest work_package_present_rule-NeverSkips (
                      and_rest claims_defined_rule-NeverSkips (
                        and_rest verification_guide_present_rule-NeverSkips (
                          and_rest system_evidence_required_rule-NeverSkips (
                            and_rest feature_evidence_required_rule-NeverSkips (
                              and_rest review_decision_approved_rule-NeverSkips (
                                and_rest qa_report_passed_rule-NeverSkips (
                                  and_rest test_execution_evidence_present_rule-NeverSkips (
                                    and_rest implementation_tasks_accepted_rule-NeverSkips (
                                      and_rest all_tasks_accepted_rule-NeverSkips (
                                        and_rest qa_final_pass_recorded_rule-NeverSkips (
                                          and_rest qa_in_scope_zero_defects_rule-NeverSkips
                                            none_left))))))))))))))))))))

-- A satisfied evaluation enforces what was asked: when the engine of the registry has evaluated some
-- conditions without raising, and reports that it is satisfied, then each of them that is the
-- condition of a registered rule has a result of its own, and that result is "passed". A skip or a
-- missing result is never taken for a pass.
pub satisfied-enforced :
    (conditions : List TransitionCondition) (context : RuleContext) (evaluation : RuleEvaluation)
    (rule : Rule)
    → evaluate_rules the_rule_engine conditions context ≡ ok evaluation
    → is_satisfied evaluation ≡ true
    → Memᴰ rule rules
    → Memᴰ rule.condition conditions
    → (r : RuleResult) × Memᴰ r evaluation.results
      × (r.condition ≡ rule.condition)
      × (r.status ≡ RuleStatus.passed)
unfolding rule_for
satisfied-enforced conditions context evaluation rule h satisfied registered asked =
    elim (evaluate-covers the_rule_engine conditions context evaluation rule.condition h asked) [
      | inl (r, m, p) ↦ (
        r,
        m,
        p,
        evaluate-passed the_rule_engine conditions context evaluation rules-NeverSkips h satisfied r
            m,
      )
      | inr (without, left) ↦ cc (
        find-none (λ (x : Rule). same x.condition rule.condition) without registered,
        (same_iff rule.condition rule.condition).1 refl,
      )
    ]
