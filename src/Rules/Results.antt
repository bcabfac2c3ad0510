-- ===== src/Rules/Results.antt =====
-- rules/results.py and rules/base.py: what a rule answers, and what a rule is.
-- Of a result the message is left out, the text that explains it to a human.
use ai_engineering_os.Base.{
  Bool, List, Option, Result, StrEnum, String, [], false, filter, find, is_empty, is_some, map,
  none, not, same, some, true, ℕ, ◌&&◌,
}
use ai_engineering_os.Domain.Conditions.{TransitionCondition, transition_condition_enum}
use ai_engineering_os.Rules.Codes.{RuleCode, RuleId, RuleStage, rule_code_enum, rule_id_enum}
use ai_engineering_os.Rules.Facts.{RuleFact, rule_fact_enum}
use ai_engineering_os.Rules.Context.{RuleContext}

pub data RuleStatus : Type 0 where
  passed failed skipped : RuleStatus

abbrev pub status_label : RuleStatus → String
status_label RuleStatus.passed = "PASSED"
status_label RuleStatus.failed = "FAILED"
status_label RuleStatus.skipped = "SKIPPED"

-- What `RuleDetail.of` turns into text with `str`.
pub data DetailValue : Type 0 where
  identifier : ℕ → DetailValue
  count : ℕ → DetailValue
  text : String → DetailValue

pub record RuleDetail : Type 0 where
  pub key : String
  pub values : List DetailValue

-- `RuleDetail.of`, for identifiers, for numbers, for texts and for members of an enumeration.
abbrev pub ids : String → List ℕ → RuleDetail
ids key values = record { key = key; values = map DetailValue.identifier values }

abbrev pub counts : String → List ℕ → RuleDetail
counts key values = record { key = key; values = map DetailValue.count values }

abbrev pub texts : String → List String → RuleDetail
texts key values = record { key = key; values = map DetailValue.text values }

abbrev pub names : {A : Type 0} ⦃e : StrEnum A⦄ → String → List A → RuleDetail
names ⦃e⦄ key values = record { key = key; values = map (λ v. DetailValue.text (e.label v)) values }

pub record RuleResult : Type 0 where
  pub rule_id : RuleId
  pub condition : TransitionCondition
  pub status : RuleStatus
  pub code : Option RuleCode
  pub details : List RuleDetail
  pub skipped_because : List RuleId

-- `RuleResult.__post_init__`: what it refuses to construct.
unfoldable pub is_well_formed : RuleStatus → RuleResult → Bool
is_well_formed RuleStatus.passed result =
    not (is_some result.code) && is_empty result.skipped_because
is_well_formed RuleStatus.failed result = is_some result.code && is_empty result.skipped_because
is_well_formed RuleStatus.skipped result =
    not (is_some result.code) && not (is_empty result.skipped_because)

-- What a rule finds: `self.passed(...)` or `self.failed(code, ..., *details)`.
pub data Finding : Type 0 where
  satisfied : Finding
  violated : RuleCode → List RuleDetail → Finding

-- `Rule.passed` and `Rule.failed`: the result, attributed to the rule.
unfoldable pub attributed : RuleId → TransitionCondition → Finding → RuleResult
attributed rule_id condition Finding.satisfied = record {
  rule_id = rule_id;
  condition = condition;
  status = RuleStatus.passed;
  code = none;
  details = [];
  skipped_because = [];
}
attributed rule_id condition (Finding.violated code details) = record {
  rule_id = rule_id;
  condition = condition;
  status = RuleStatus.failed;
  code = some code;
  details = details;
  skipped_because = [];
}

pub record Rule : Type 0 where
  pub rule_id : RuleId
  pub condition : TransitionCondition
  pub stage : RuleStage
  pub required_facts : List RuleFact
  pub requires : List RuleId
  pub evaluate : RuleContext → Result RuleResult

abbrev pub is_failed : RuleStatus → Bool
is_failed RuleStatus.failed = true
is_failed RuleStatus.passed = false
is_failed RuleStatus.skipped = false

abbrev pub is_skipped : RuleStatus → Bool
is_skipped RuleStatus.skipped = true
is_skipped RuleStatus.passed = false
is_skipped RuleStatus.failed = false

pub record RuleEvaluation : Type 0 where
  pub requested_conditions : List TransitionCondition
  pub results : List RuleResult
  pub unevaluated_conditions : List TransitionCondition

unfoldable pub failures : RuleEvaluation → List RuleResult
unfolding filter
failures evaluation = filter (λ r. is_failed r.status) evaluation.results

unfoldable pub skipped_results : RuleEvaluation → List RuleResult
unfolding filter
skipped_results evaluation = filter (λ r. is_skipped r.status) evaluation.results

unfoldable pub is_satisfied : RuleEvaluation → Bool
unfolding failures
is_satisfied evaluation = is_empty (failures evaluation)

unfoldable pub has_unenforced_conditions : RuleEvaluation → Bool
has_unenforced_conditions evaluation = not (is_empty evaluation.unevaluated_conditions)

unfoldable pub result_for : RuleEvaluation → RuleId → Option RuleResult
unfolding find
result_for evaluation rule_id = find (λ r. same r.rule_id rule_id) evaluation.results
