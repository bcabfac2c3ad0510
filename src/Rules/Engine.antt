-- ===== src/Rules/Engine.antt =====
-- rules/engine.py: the deterministic rule engine.
pub mod Judging
pub mod Coverage
use ai_engineering_os.Base.{
  Bool, Error, List, Option, Result, [], all, any, distinct, elem, err, false, filter, find,
  if◌then◌else◌, is_empty, is_some, map, none, not, ok, same, sorted, sorted_by, sorted_members,
  ◌&&◌, ◌||◌, ◌∷◌, ◌>>=◌, ◌>>◌,
}
use ai_engineering_os.Domain.Conditions.{TransitionCondition, transition_condition_enum}
use ai_engineering_os.Rules.Codes.{RuleId, stage_number, rule_code_enum, rule_id_enum}
use ai_engineering_os.Rules.Context.{RuleContext, missing}
use ai_engineering_os.Rules.Results.{
  Rule, RuleEvaluation, RuleResult, RuleStatus, is_failed, is_skipped,
}

-- Stage first, then declaration order.
unfoldable pub evaluation_order : List Rule → List Rule
unfolding sorted stage_number
evaluation_order rules = sorted_by (λ (rule : Rule). stage_number rule.stage) rules

-- The first loop of `_validated`: identifiers and conditions are registered once.
unfoldable pub check_unique : List RuleId → List TransitionCondition → List Rule → Result (Unit {0})
unfolding any
check_unique seen_ids seen_conditions [] = ok tt
check_unique seen_ids seen_conditions (rule ∷ rest) =
    let next = check_unique (rule.rule_id ∷ seen_ids) (rule.condition ∷ seen_conditions) rest in
    if elem rule.rule_id seen_ids
    then err Error.rule_definition
    else if elem rule.condition seen_conditions
    then err Error.rule_definition
    else next

-- The second loop: each prerequisite is registered, and sorts strictly earlier.
unfoldable pub check_prerequisites : List RuleId → List RuleId → List Rule → Result (Unit {0})
unfolding any all
check_prerequisites seen_ids earlier [] = ok tt
check_prerequisites seen_ids earlier (rule ∷ rest) =
    let next = check_prerequisites seen_ids (rule.rule_id ∷ earlier) rest in
    if all (λ p. elem p seen_ids && elem p earlier) rule.requires
    then next
    else err Error.rule_definition

-- `_validated`, which the constructor of `RuleEngine` calls.
unfoldable pub validated_rules : List Rule → Result (List Rule)
unfolding evaluation_order check_unique check_prerequisites
validated_rules rules = do
  let ordered = evaluation_order rules
  check_unique [] [] ordered
  check_prerequisites (map (λ (rule : Rule). rule.rule_id) ordered) [] ordered
  ok ordered

pub record RuleEngine : Type 0 where
  pub rules : List Rule

unfoldable pub rule_engine : List Rule → Result RuleEngine
unfolding validated_rules
rule_engine rules = do ordered ← validated_rules rules; ok (record { rules = ordered })

unfoldable pub evaluated_conditions : RuleEngine → List TransitionCondition
evaluated_conditions engine = map (λ (rule : Rule). rule.condition) engine.rules

unfoldable pub rule_for : RuleEngine → TransitionCondition → Option Rule
unfolding find
rule_for engine condition = find (λ rule. same rule.condition condition) engine.rules

-- `_verify_facts_are_supplied`
unfoldable pub verify_facts : RuleContext → List Rule → Result (Unit {0})
unfolding missing all
verify_facts context selected =
    if all (λ (rule : Rule). is_empty (missing context rule.required_facts)) selected
    then ok tt
    else err Error.rule_context_incomplete

abbrev pub Statuses : Type 0
Statuses = List (RuleId × RuleStatus)

-- `statuses.get(prerequisite) in _BLOCKING_STATUSES`; a later entry stands in front.
unfoldable pub blocks : Statuses → RuleId → Bool
blocks [] prerequisite = false
blocks ((rule_id, status) ∷ rest) prerequisite =
    let later = blocks rest prerequisite in
    if same rule_id prerequisite then is_failed status || is_skipped status else later

unfoldable pub blocking : Statuses → Rule → List RuleId
unfolding filter sorted blocks
blocking statuses rule = sorted_members (filter (blocks statuses) rule.requires)

-- `_checked`: a result is attributed to the rule that made it.
unfoldable pub checked : Rule → RuleResult → Result RuleResult
checked rule result =
    if same result.rule_id rule.rule_id && same result.condition rule.condition
    then ok result
    else err Error.rule_definition

unfoldable pub skipped : Rule → List RuleId → RuleResult
skipped rule because = record {
  rule_id = rule.rule_id;
  condition = rule.condition;
  status = RuleStatus.skipped;
  code = none;
  details = [];
  skipped_because = because;
}

-- One round of the loop of `evaluate`.
unfoldable pub judge : RuleContext → Statuses → Rule → Result RuleResult
unfolding blocking checked skipped
judge context statuses rule =
    if is_empty (blocking statuses rule)
    then (do result ← rule.evaluate context; checked rule result)
    else ok (skipped rule (blocking statuses rule))

unfoldable pub judge_all : RuleContext → Statuses → List Rule → Result (List RuleResult)
unfolding judge
judge_all context statuses [] = ok []
judge_all context statuses (rule ∷ rest) = do
  result ← judge context statuses rule
  results ← judge_all context ((rule.rule_id, result.status) ∷ statuses) rest
  ok (result ∷ results)

unfoldable pub selected_rules : RuleEngine → List TransitionCondition → List Rule
unfolding filter any
selected_rules engine requested = filter (λ rule. elem rule.condition requested) engine.rules

unfoldable pub evaluate :
    RuleEngine → List TransitionCondition → RuleContext → Result RuleEvaluation
unfolding distinct sorted filter rule_for selected_rules verify_facts judge_all
evaluate engine conditions context = do
  let requested = sorted_members (distinct conditions)
  let selected = selected_rules engine requested
  let unevaluated = filter (λ c. not (is_some (rule_for engine c))) requested
  verify_facts context selected
  results ← judge_all context [] selected
  ok (record {
    requested_conditions = requested;
    results = results;
    unevaluated_conditions = unevaluated;
  })
