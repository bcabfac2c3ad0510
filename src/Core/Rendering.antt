-- ===== src/Core/Rendering.antt =====
-- core/runner.py: the reasons of a refusal, the attribution and the payload, as they are recorded.
use ai_engineering_os.Base.{
  Bool, List, Option, String, [], filter, if◌then◌else◌, map, none, not, some, str_eq, ℕ, ◌&&◌, ◌∷◌,
}
use ai_engineering_os.Domain.Enums.{
  Initiator, SystemActor, role, system, actor_role_enum, capability_type_enum, evidence_type_enum,
  feature_status_enum, initiator_enum, plan_status_enum, qa_status_enum, review_outcome_enum,
  task_status_enum, work_package_status_enum,
}
use ai_engineering_os.Domain.Event.{Payload, PayloadValue, Reason}
use ai_engineering_os.Rules.Results.{
  RuleEvaluation, RuleResult, is_failed, is_skipped, status_label,
}
use ai_engineering_os.Rules.Codes.{RuleCode, rule_code_enum, rule_id_enum}
use ai_engineering_os.Domain.Conditions.{transition_condition_enum}
use ai_engineering_os.State.Machine.{TransitionRejection, TransitionRejectionCode}

-- The labels of `TransitionRejectionCode`, and the reason that a rejection gives.
abbrev pub rejection_code_label : TransitionRejectionCode → String
rejection_code_label TransitionRejectionCode.terminal_state = "TERMINAL_STATE"
rejection_code_label TransitionRejectionCode.undefined_transition = "UNDEFINED_TRANSITION"
rejection_code_label TransitionRejectionCode.unauthorized_initiator = "UNAUTHORIZED_INITIATOR"

unfoldable pub rejection_reason : TransitionRejection → Reason
rejection_reason rejection =
    ("source", some "state_machine") ∷ ("code", some (rejection_code_label rejection.code)) ∷ []

abbrev code_label : Option RuleCode → Option String
code_label none = none
code_label (some code) = some (rule_code_enum.label code)

unfoldable pub result_reason : RuleResult → Reason
result_reason result =
    ("source", some "rule_engine")
    ∷ ("rule_id", some (rule_id_enum.label result.rule_id))
    ∷ ("condition", some (transition_condition_enum.label result.condition))
    ∷ ("status", some (status_label result.status))
    ∷ ("code", code_label result.code)
    ∷ []

abbrev pub is_passed_result : RuleResult → Bool
is_passed_result result = not (is_failed result.status) && not (is_skipped result.status)

-- `_rule_reasons`
unfoldable pub rule_reasons : Option RuleEvaluation → List Reason
rule_reasons none = []
rule_reasons (some rules) =
    map result_reason (filter (λ (r : RuleResult). not (is_passed_result r)) rules.results)

-- `initiator_id_for`
unfoldable pub initiator_id_for : Initiator → Option ℕ → Option ℕ
initiator_id_for (role r) actor_id = actor_id
initiator_id_for (system SystemActor.os) actor_id = none

-- `dict` entries: a later one with the same key replaces the earlier one.
unfoldable pub set_entry : String → PayloadValue → Payload → Payload
set_entry key value [] = (key, value) ∷ []
set_entry key value ((other, old) ∷ rest) =
    let later = set_entry key value rest in
    if str_eq other key then (key, value) ∷ rest else (other, old) ∷ later

unfoldable pub merged : Payload → Payload → Payload
merged entries [] = entries
merged entries ((key, value) ∷ rest) = merged (set_entry key value entries) rest
