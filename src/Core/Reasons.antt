-- ===== src/Core/Reasons.antt =====
-- core/runner.py, `_reasons`: a refusal always says why.
use mathlib.Core.Path.{subst}
use ai_engineering_os.Storage.Appends.{result_cases}
use ai_engineering_os.Base.{
  Bool-cases, List, Option, StrEnum, [], arith, false, filter, inl, inr, is_empty, map, none, not,
  ok, refl, some, true, ◌++◌, ◌∷◌, ◌≡◌,
}
use ai_engineering_os.State.Machine.{
  TransitionEvaluation, TransitionRejection, TransitionRejectionCode, evaluate,
}
use ai_engineering_os.State.Machine.Verdict.{Verdict, evaluate-Verdict}
use ai_engineering_os.Rules.Results.{
  RuleEvaluation, RuleResult, failures, is_failed, is_satisfied, is_skipped,
}
use ai_engineering_os.Rules.Engine.{evaluate as evaluate_rules}
use ai_engineering_os.Rules.Registry.{the_rule_engine}
use ai_engineering_os.Core.Rendering.{
  is_passed_result, rejection_reason, result_reason, rule_reasons,
}
use ai_engineering_os.Core.Runner.{TransitionRequest, evaluated, is_refused, reasons_of}

-- A failed result is one that has not passed, so it is among the reasons.
failed-kept :
    (results : List RuleResult)
    → is_empty (filter (λ (r : RuleResult). is_failed r.status) results) ≡ false
    → is_empty (map result_reason (filter (λ (r : RuleResult). not (is_passed_result r)) results))
      ≡ false
unfolding filter
failed-kept [] h = h
failed-kept (r ∷ rest) h = elim (Bool-cases (is_failed r.status)) [
  | inl failed ↦ rw failed refl
  | inr other ↦ elim (Bool-cases (is_skipped r.status)) [
    | inl skip ↦ rw (other, skip) refl
    | inr passed ↦ rw (other, passed) (failed-kept rest (rw other at h))
  ]
]

is_empty-append :
    {A : Type 0} (xs : List A) (ys : List A) → is_empty ys ≡ false → is_empty (xs ++ ys) ≡ false
is_empty-append [] ys h = h
is_empty-append (x ∷ xs) ys h = refl

append-is_empty :
    {A : Type 0} (xs : List A) (ys : List A) → is_empty xs ≡ false → is_empty (xs ++ ys) ≡ false
append-is_empty [] ys h = cc
append-is_empty (x ∷ xs) ys h = refl

module _ {S : Type 0} ⦃e : StrEnum S⦄ (request : TransitionRequest S) where
  rejected-says :
      (transition : TransitionEvaluation S)
      → Verdict request.machine request.from_state request.to_state request.initiator transition
      → transition.is_allowed ≡ false
      → is_empty (map rejection_reason transition.rejections) ≡ false
  rejected-says transition v h = go v
    where
      some_code :
          (rs : List TransitionRejection) {c : TransitionRejectionCode}
          → map (λ (r : TransitionRejection). r.code) rs ≡ c ∷ []
          → is_empty (map rejection_reason rs) ≡ false
      some_code [] k = cc
      some_code (r ∷ rs) k = refl

      go :
          Verdict request.machine request.from_state request.to_state request.initiator transition
          → is_empty (map rejection_reason transition.rejections) ≡ false
      go (Verdict.terminal _ _ k) = some_code _ k
      go (Verdict.undefined _ _ _ k) = some_code _ k
      go (Verdict.unauthorized _ _ _ _ k) = some_code _ k
      go (Verdict.allowed _ _ _ k _ _) = cc

  evaluated_elim :
      (transition : TransitionEvaluation S) (judged : Option RuleEvaluation)
      → evaluated request ≡ ok (transition, judged)
      → evaluate request.machine request.from_state request.to_state request.initiator ≡ transition
  unfolding evaluated
  evaluated_elim transition judged h = elim (Bool-cases asked.is_allowed) [
    | inr denied ↦ cc (rw denied at h)
    | inl granted ↦
        elim (result_cases
          (evaluate_rules the_rule_engine asked.required_conditions request.context)) [
            | inl (e, k) ↦ cc (rw (granted, k) at h)
            | inr (v, k) ↦ cc h
          ]
  ]
    where
      asked : TransitionEvaluation S
      asked = evaluate request.machine request.from_state request.to_state request.initiator

  -- A refusal always says why: when the state machine or the rules refuse, the reasons that are
  -- recorded in the audit ledger and in the event are not empty.
  pub reasons_of-nonempty :
      (transition : TransitionEvaluation S) (judged : Option RuleEvaluation)
      → evaluated request ≡ ok (transition, judged)
      → is_refused transition judged ≡ true
      → is_empty (reasons_of transition judged) ≡ false
  unfolding reasons_of is_refused rule_reasons is_satisfied failures
  reasons_of-nonempty transition judged h refused = by_rules judged refused
    where
      verdict :
          Verdict request.machine request.from_state request.to_state request.initiator transition
      verdict =
          subst
            (λ t. Verdict request.machine request.from_state request.to_state request.initiator t)
            (evaluated_elim transition judged h)
            (evaluate-Verdict request.machine request.from_state request.to_state request.initiator)

      by_rules :
          (rs : Option RuleEvaluation)
          → is_refused transition rs ≡ true
          → is_empty (reasons_of transition rs) ≡ false
      by_rules none k = append-is_empty _ [] (rejected-says transition verdict (ground arith))
      by_rules (some evaluation) k = elim (Bool-cases transition.is_allowed) [
        | inr denied ↦ append-is_empty _ _ (rejected-says transition verdict denied)
        | inl granted ↦
            is_empty-append _ _ (failed-kept evaluation.results (ground (arith, granted)))
      ]
