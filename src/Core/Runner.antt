-- ===== src/Core/Runner.antt =====
-- core/runner.py: the Validation-First runner. Everything is evaluated before anything is changed; a
-- refusal is recorded and committed, as a success is.
use ai_engineering_os.Core.Rendering.{merged, rejection_reason, rule_reasons}
use ai_engineering_os.Storage.Session.{
  Action, commit, done, emit_for_event, lift, new_id, utc_now, ◌>>◌, ◌>>=◌,
}
use ai_engineering_os.Storage.Writes.{add_audit, add_event}
use ai_engineering_os.Base.{
  Bool, List, Option, Result, StrEnum, String, [], err, false, if◌then◌else◌, map, none, not, ok,
  some, true, ℕ, ◌++◌, ◌||◌, ◌∷◌,
}
use ai_engineering_os.Domain.Enums.{
  Initiator, actor_role_enum, capability_type_enum, evidence_type_enum, feature_status_enum,
  initiator_enum, plan_status_enum, qa_status_enum, review_outcome_enum, task_status_enum,
  work_package_status_enum,
}
use ai_engineering_os.Domain.Event.{
  EventType, OsEvent, Payload, PayloadValue, Reason, TransitionAuditRecord, TransitionOutcome,
  outcome_label, validated_audit, validated_event,
}
use ai_engineering_os.Rules.Context.{RuleContext}
use ai_engineering_os.Rules.Engine.{evaluate as evaluate_rules}
use ai_engineering_os.Rules.Results.{RuleEvaluation, is_satisfied}
use ai_engineering_os.Rules.Codes.{rule_code_enum, rule_id_enum}
use ai_engineering_os.Rules.Registry.{the_rule_engine}
use ai_engineering_os.Domain.Conditions.{transition_condition_enum}
use ai_engineering_os.State.Machine.{StateMachine, TransitionEvaluation, evaluate}

-- `apply` is the mutation of the caller.
pub record TransitionRequest (S : Type 0) : Type 0 where
  pub machine : StateMachine S
  pub entity_type : String
  pub entity_id : ℕ
  pub from_state : S
  pub to_state : S
  pub initiator : Initiator
  pub initiator_id : Option ℕ
  pub context : RuleContext
  pub apply : Action (Unit {0})
  pub allowed_event_type : EventType
  pub payload : Payload

pub record TransitionResult (S : Type 0) : Type 0 where
  pub is_allowed : Bool
  pub transition : TransitionEvaluation S
  pub rules : Option RuleEvaluation
  pub audit : TransitionAuditRecord
  pub event : OsEvent

abbrev pub is_allowed_outcome : TransitionOutcome → Bool
is_allowed_outcome TransitionOutcome.allowed = true
is_allowed_outcome TransitionOutcome.rejected = false

-- The `detail` of the two kinds of event.
abbrev pub refusal_detail : List Reason → Payload
refusal_detail reasons =
    ("outcome", PayloadValue.text (outcome_label TransitionOutcome.rejected))
    ∷ ("reasons", PayloadValue.refusal_reasons reasons)
    ∷ []

abbrev pub allowed_detail : Payload
allowed_detail = ("outcome", PayloadValue.text (outcome_label TransitionOutcome.allowed)) ∷ []

-- The two calls of `_append_event` that nothing else holds together: append, then wake.
unfoldable pub publish : OsEvent → Action OsEvent
publish event = do recorded ← add_event event; emit_for_event recorded; done recorded

module _ {S : Type 0} ⦃e : StrEnum S⦄ where
  -- `_reasons`
  unfoldable pub reasons_of : TransitionEvaluation S → Option RuleEvaluation → List Reason
  reasons_of transition rules = map rejection_reason transition.rejections ++ rule_reasons rules

  -- `_append_audit`
  unfoldable pub append_audit :
      TransitionRequest S → TransitionOutcome → List Reason → Action TransitionAuditRecord
  append_audit request outcome reasons = do
    id ← new_id
    at ← utc_now
    audit ← lift (
        validated_audit (record {
          sequence_number = none;
          id = id;
          entity_type = request.entity_type;
          entity_id = request.entity_id;
          from_state = e.label request.from_state;
          attempted_state = e.label request.to_state;
          outcome = outcome;
          requested_by = request.initiator_id;
          requested_by_role = request.initiator;
          reasons = reasons;
          occurred_at = at;
        }))
    add_audit audit

  unfoldable pub event_payload : TransitionRequest S → Payload → Payload
  event_payload request detail =
      merged
        (merged
          (("from_state", PayloadValue.text (e.label request.from_state))
            ∷ ("to_state", PayloadValue.text (e.label request.to_state))
            ∷ [])
          detail)
        request.payload

  -- `_append_event`: the event, and its wake-up.
  unfoldable pub append_event : TransitionRequest S → EventType → Payload → Action OsEvent
  append_event request event_type detail = do
    id ← new_id
    at ← utc_now
    event ← lift (
        validated_event (record {
          sequence_number = none;
          id = id;
          event_type = event_type;
          aggregate_type = request.entity_type;
          aggregate_id = request.entity_id;
          actor_id = request.initiator_id;
          actor_role = request.initiator;
          payload = event_payload request detail;
          occurred_at = at;
        }))
    publish event

  -- What `_refuse` and `_allow` share: the audit record, the event, the commit.
  unfoldable pub conclude :
      TransitionRequest S
      → TransitionOutcome
      → List Reason
      → EventType
      → Payload
      → TransitionEvaluation S
      → Option RuleEvaluation
      → Action (TransitionResult S)
  conclude request outcome reasons event_type detail transition rules = do
    audit ← append_audit request outcome reasons
    event ← append_event request event_type detail
    commit
    done (record {
      is_allowed = is_allowed_outcome outcome;
      transition = transition;
      rules = rules;
      audit = audit;
      event = event;
    })

  -- `_refuse`
  unfoldable pub refuse :
      TransitionRequest S
      → TransitionEvaluation S
      → Option RuleEvaluation
      → Action (TransitionResult S)
  refuse request transition rules =
      conclude request TransitionOutcome.rejected (reasons_of transition rules)
        EventType.state_transition_rejected
        (("outcome", PayloadValue.text (outcome_label TransitionOutcome.rejected))
          ∷ ("reasons", PayloadValue.refusal_reasons (reasons_of transition rules))
          ∷ [])
        transition rules

  -- `_allow`
  unfoldable pub allow :
      TransitionRequest S
      → TransitionEvaluation S
      → Option RuleEvaluation
      → Action (TransitionResult S)
  allow request transition rules =
      conclude request TransitionOutcome.allowed [] request.allowed_event_type allowed_detail
        transition rules

  -- The part of `run` that evaluates: the state machine, and the rules only when it allowed.
  unfoldable pub evaluated :
      TransitionRequest S → Result (TransitionEvaluation S × Option RuleEvaluation)
  evaluated request =
      judged (evaluate request.machine request.from_state request.to_state request.initiator)
    where
      paired :
          TransitionEvaluation S
          → Result RuleEvaluation
          → Result (TransitionEvaluation S × Option RuleEvaluation)
      paired transition (err raised) = err raised
      paired transition (ok rules) = ok (transition, some rules)

      judged : TransitionEvaluation S → Result (TransitionEvaluation S × Option RuleEvaluation)
      judged transition =
          if transition.is_allowed
          then paired transition
              (evaluate_rules the_rule_engine transition.required_conditions request.context)
          else ok (transition, none)

  unfoldable pub is_refused : TransitionEvaluation S → Option RuleEvaluation → Bool
  is_refused transition none = not transition.is_allowed
  is_refused transition (some rules) = not transition.is_allowed || not (is_satisfied rules)

  unfoldable pub settle :
      TransitionRequest S
      → Bool
      → TransitionEvaluation S
      → Option RuleEvaluation
      → Action (TransitionResult S)
  settle request true transition rules = refuse request transition rules
  settle request false transition rules = request.apply >> allow request transition rules

  -- `TransitionRunner.run`
  unfoldable pub run : TransitionRequest S → Action (TransitionResult S)
  run request = do
    (transition, rules) ← lift (evaluated request)
    settle request (is_refused transition rules) transition rules
