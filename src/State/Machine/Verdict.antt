-- ===== src/State/Machine/Verdict.antt =====
-- The verdict of `evaluate` in state/machine.py, on every branch.
use ai_engineering_os.Base.{
  Bool, Bool-cases, List, Memᴰ, Option-cases, StrEnum, [], elem, elem_iff, false, filter, find-none,
  find-some, inl, inr, is_empty, map, mem-filter_elim, mem-filter_intro, none, refl, same, same_iff,
  some, true, ◌↔◌, ◌∷◌, ◌≡◌,
}
use ai_engineering_os.Domain.Enums.{
  Initiator, actor_role_enum, capability_type_enum, evidence_type_enum, feature_status_enum,
  initiator_enum, plan_status_enum, task_status_enum, work_package_status_enum,
}
use ai_engineering_os.State.Machine.Laws.{has_key_eq, has_key_intro}
use ai_engineering_os.State.Machine.{
  StateMachine, TransitionDefinition, TransitionEvaluation, TransitionRejection,
  TransitionRejectionCode, allowed_targets, definition, evaluate, evaluate_edge, has_key,
  is_terminal,
}

module _ {S : Type 0} ⦃e : StrEnum S⦄ (m : StateMachine S) (from_state to_state : S) where
  -- Some edge leaves `from_state`.
  abbrev pub HasExit : Type 0
  HasExit = (t : TransitionDefinition S) × Memᴰ t m.transitions × (t.from_state ≡ from_state)

  -- `t` is the edge between the two states.
  abbrev pub IsEdge : TransitionDefinition S → Type 0
  IsEdge t = Memᴰ t m.transitions × (t.from_state ≡ from_state) × (t.to_state ≡ to_state)

  is_terminal_iff : (is_terminal m from_state ≡ false) ↔ HasExit
  unfolding is_terminal allowed_targets
  is_terminal_iff = (
    λ h. first (filter leaves m.transitions) h (λ t k. mem-filter_elim leaves m.transitions k),
    λ x. found (mem-filter_intro leaves x.1 ((same_iff x.0.from_state from_state).1 x.2)),
  )
    where
      leaves : TransitionDefinition S → Bool
      leaves t = same t.from_state from_state

      first :
          (ts : List (TransitionDefinition S))
          → is_empty (map (λ (t : TransitionDefinition S). t.to_state) ts) ≡ false
          → ((t : TransitionDefinition S) → Memᴰ t ts → Memᴰ t m.transitions × (leaves t ≡ true))
          → HasExit
      first [] h back = cc
      first (t ∷ ts) h back = let (k, l) = back t (Memᴰ.head refl) in (t, k, (same_iff _ _).0 l)

      found :
          {t : TransitionDefinition S} {ts : List (TransitionDefinition S)}
          → Memᴰ t ts
          → is_empty (map (λ (t : TransitionDefinition S). t.to_state) ts) ≡ false
      found (Memᴰ.head _) = refl
      found (Memᴰ.tail _) = refl

  definition-some :
      {t : TransitionDefinition S} → definition m from_state to_state ≡ some t → IsEdge t
  unfolding definition
  definition-some {t} h =
      let (k, keyed) = find-some (has_key from_state to_state) m.transitions h in
      let (p, q) = has_key_eq from_state to_state t keyed in (k, p, q)

  definition-none :
      (t : TransitionDefinition S) → definition m from_state to_state ≡ none → IsEdge t → ⊥
  unfolding definition
  definition-none t h (k, p, q) =
      cc (find-none (has_key from_state to_state) h k, has_key_intro from_state to_state t p q)

  -- What `evaluate` answers for one requested transition.
  pub data Verdict (i : Initiator) (v : TransitionEvaluation S) : Type 0 where
    terminal :
        ¬ HasExit
        → v.is_allowed ≡ false
        → map (λ (r : TransitionRejection). r.code) v.rejections
          ≡ TransitionRejectionCode.terminal_state ∷ []
        → Verdict i v
    undefined :
        HasExit
        → ¬ ((t : TransitionDefinition S) × IsEdge t)
        → v.is_allowed ≡ false
        → map (λ (r : TransitionRejection). r.code) v.rejections
          ≡ TransitionRejectionCode.undefined_transition ∷ []
        → Verdict i v
    unauthorized :
        (t : TransitionDefinition S)
        → IsEdge t
        → ¬ Memᴰ i t.allowed_initiators
        → v.is_allowed ≡ false
        → map (λ (r : TransitionRejection). r.code) v.rejections
          ≡ TransitionRejectionCode.unauthorized_initiator ∷ []
        → Verdict i v
    allowed :
        (t : TransitionDefinition S)
        → IsEdge t
        → Memᴰ i t.allowed_initiators
        → v.is_allowed ≡ true
        → v.rejections ≡ []
        → v.required_conditions ≡ t.required_conditions
        → Verdict i v

  -- The four answers of `evaluate` are exhaustive, and each comes with the fact about the graph that
  -- justifies it: a terminal state has no exit, an undefined transition has no edge, an unauthorized
  -- initiator is not among those of the edge, and an allowed transition follows an edge, by one of
  -- its initiators, and requires exactly the conditions of that edge.
  pub evaluate-Verdict : (i : Initiator) → Verdict i (evaluate m from_state to_state i)
  unfolding evaluate
  evaluate-Verdict i = elim (Bool-cases (is_terminal m from_state)) [
    | inl stuck ↦ rw stuck (Verdict.terminal (λ x. cc (is_terminal_iff.1 x)) refl refl)
    | inr open_state ↦ elim (Option-cases (definition m from_state to_state)) [
      | inl missing ↦
          rw (open_state, missing)
            (Verdict.undefined (is_terminal_iff.0 open_state)
              (λ (t, h). definition-none t missing h) refl refl)
      | inr (t, found) ↦ elim (Bool-cases (elem i t.allowed_initiators)) [
        | inl listed ↦
            rw (open_state, found, evaluate_edge, listed)
              (Verdict.allowed t (definition-some found) ((elem_iff i _).0 listed) refl refl refl)
        | inr unlisted ↦
            rw (open_state, found, evaluate_edge, unlisted)
              (Verdict.unauthorized t (definition-some found)
                (λ k. cc (unlisted, (elem_iff i _).1 k)) refl refl)
      ]
    ]
  ]
