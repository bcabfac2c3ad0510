-- ===== src/State/Machine.antt =====
-- state/machine.py: the generic lifecycle graph and its evaluator.
-- The texts of the messages are left out; labels and structured fields are kept.
pub mod Laws
pub mod Verdict
use ai_engineering_os.Base.{
  String, Option, none, some, Bool, true, false, List, [], ◌∷◌, ◌++◌, map, not, ◌&&◌, if◌then◌else◌,
  is_empty, is_some, filter, any, all, find, sorted, str_leb, StrEnum, same, elem, Error,
  state_machine_definition, Result, ok, err, ◌>>=◌, ◌>>◌, guard,
}
use ai_engineering_os.Domain.Enums.{Initiator, initiator_enum}
use ai_engineering_os.Domain.Conditions.{TransitionCondition}

pub data TransitionRejectionCode : Type 0 where
  terminal_state undefined_transition unauthorized_initiator : TransitionRejectionCode

pub record TransitionRejection : Type 0 where
  pub code : TransitionRejectionCode
  pub entity : String
  pub from_state : String
  pub to_state : String
  pub allowed_targets : List String
  pub allowed_initiators : List String

-- One permitted edge. Python's frozensets are lists here: only membership is ever asked of them.
pub record TransitionDefinition (S : Type 0) : Type 0 where
  pub from_state : S
  pub to_state : S
  pub allowed_initiators : List Initiator
  pub required_conditions : List TransitionCondition

pub record TransitionEvaluation (S : Type 0) : Type 0 where
  pub entity : String
  pub from_state : S
  pub to_state : S
  pub initiator : Initiator
  pub is_allowed : Bool
  pub rejections : List TransitionRejection
  pub required_conditions : List TransitionCondition

pub record StateMachine (S : Type 0) : Type 0 where
  pub entity : String
  pub initial_state : S
  pub transitions : List (TransitionDefinition S)

-- `_labels`: the sorted names of a set of members.
unfoldable pub labels : {S : Type 0} ⦃e : StrEnum S⦄ → List S → List String
unfolding sorted
labels ⦃e⦄ values = sorted str_leb (map e.label values)

module _ {S : Type 0} ⦃e : StrEnum S⦄ where
  -- Whether `transition` is stored under the key `(from_state, to_state)`.
  abbrev pub has_key : S → S → TransitionDefinition S → Bool
  has_key from_state to_state transition =
      same transition.from_state from_state && same transition.to_state to_state

  -- The loop of the constructor: `declared` is what the dictionary holds so far.
  unfoldable pub declare :
      List (TransitionDefinition S)
      → List (TransitionDefinition S)
      → Result (List (TransitionDefinition S))
  unfolding any
  declare declared [] = ok declared
  declare declared (transition ∷ rest) =
      let next = declare (declared ++ transition ∷ []) rest in
      if any (has_key transition.from_state transition.to_state) declared
      then err state_machine_definition
      else if same transition.from_state transition.to_state
      then err state_machine_definition
      else next

  -- Whether some declared edge starts or ends in `state`.
  abbrev pub is_referenced : List (TransitionDefinition S) → S → Bool
  is_referenced declared state =
      any (λ t. if same t.from_state state then true else same t.to_state state) declared

  -- `StateMachine(...)`, with the check of `_validate_states_are_declared`.
  unfoldable pub state_machine :
      String → S → List (TransitionDefinition S) → Result (StateMachine S)
  unfolding declare any all
  state_machine entity initial_state transitions = do
    declared ← declare [] transitions
    guard (all (is_referenced declared) e.members) state_machine_definition
    ok (record { entity = entity; initial_state = initial_state; transitions = declared })

  unfoldable pub allowed_targets : StateMachine S → S → List S
  unfolding filter
  allowed_targets machine state =
      map (λ t. t.to_state) (filter (λ t. same t.from_state state) machine.transitions)

  unfoldable pub is_terminal : StateMachine S → S → Bool
  unfolding allowed_targets
  is_terminal machine state = is_empty (allowed_targets machine state)

  unfoldable pub terminal_states : StateMachine S → List S
  unfolding filter is_terminal
  terminal_states machine = filter (is_terminal machine) e.members

  unfoldable pub definition : StateMachine S → S → S → Option (TransitionDefinition S)
  unfolding find
  definition machine from_state to_state = find (has_key from_state to_state) machine.transitions

  abbrev initiators_of : Option (TransitionDefinition S) → List Initiator
  initiators_of none = []
  initiators_of (some transition) = transition.allowed_initiators

  unfoldable pub allowed_initiators : StateMachine S → S → S → List Initiator
  unfolding definition
  allowed_initiators machine from_state to_state =
      initiators_of (definition machine from_state to_state)

  -- `_rejected`
  unfoldable pub rejected :
      StateMachine S → S → S → Initiator → TransitionRejection → TransitionEvaluation S
  rejected machine from_state to_state initiator rejection = record {
    entity = machine.entity;
    from_state = from_state;
    to_state = to_state;
    initiator = initiator;
    is_allowed = false;
    rejections = rejection ∷ [];
    required_conditions = [];
  }

  abbrev rejection_of :
      StateMachine S
      → S
      → S
      → TransitionRejectionCode
      → List String
      → List String
      → TransitionRejection
  rejection_of machine from_state to_state code targets initiators = record {
    code = code;
    entity = machine.entity;
    from_state = e.label from_state;
    to_state = e.label to_state;
    allowed_targets = targets;
    allowed_initiators = initiators;
  }

  -- The part of `evaluate` below the terminal check.
  unfoldable pub evaluate_edge :
      StateMachine S → S → S → Initiator → Option (TransitionDefinition S) → TransitionEvaluation S
  unfolding any rejected labels
  evaluate_edge machine from_state to_state initiator none =
      rejected machine from_state to_state initiator (
        rejection_of machine from_state to_state TransitionRejectionCode.undefined_transition
          (labels (allowed_targets machine from_state)) [])
  evaluate_edge machine from_state to_state initiator (some transition) =
      if not (elem initiator transition.allowed_initiators)
      then rejected machine from_state to_state initiator (
          rejection_of machine from_state to_state TransitionRejectionCode.unauthorized_initiator []
            (labels transition.allowed_initiators))
      else record {
        entity = machine.entity;
        from_state = from_state;
        to_state = to_state;
        initiator = initiator;
        is_allowed = true;
        rejections = [];
        required_conditions = transition.required_conditions;
      }

  unfoldable pub evaluate : StateMachine S → S → S → Initiator → TransitionEvaluation S
  unfolding evaluate_edge
  evaluate machine from_state to_state initiator =
      if is_terminal machine from_state
      then rejected machine from_state to_state initiator
          (rejection_of machine from_state to_state TransitionRejectionCode.terminal_state [] [])
      else evaluate_edge machine from_state to_state initiator
          (definition machine from_state to_state)

  unfoldable pub can_transition : StateMachine S → S → S → Initiator → Bool
  unfolding evaluate
  can_transition machine from_state to_state initiator =
      (evaluate machine from_state to_state initiator).is_allowed
