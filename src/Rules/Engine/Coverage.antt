-- ===== src/Rules/Engine/Coverage.antt =====
-- rules/engine.py: an evaluation answers every requested condition, and a satisfied one has no rule
-- that did not pass.
use mathlib.Core.Path.{subst}
use ai_engineering_os.Base.{
  Bool-cases, List, Memᴰ, Option-cases, [], ap, bind_elim, distinct, elem, elem_iff, filter,
  find-some, inl, inr, is_some, map, mem-filter_elim, mem-filter_intro, mem-map_elim,
  mem-sorted_intro, none, not, ok, refl, same, same_iff, sorted_members, sym, true, ◌≡◌, ◌⊎◌,
}
use ai_engineering_os.Domain.Conditions.{TransitionCondition, transition_condition_enum}
use ai_engineering_os.Rules.Context.{RuleContext}
use ai_engineering_os.Rules.Results.{
  Rule, RuleEvaluation, RuleResult, RuleStatus, failures, is_satisfied,
}
use ai_engineering_os.Rules.Codes.{rule_code_enum, rule_id_enum}
use ai_engineering_os.Rules.Engine.{
  RuleEngine, blocks, evaluate, judge_all, rule_for, selected_rules, verify_facts,
}
use ai_engineering_os.Rules.Engine.Judging.{NeverSkips, judge_all-conditions, judge_all-passed}

-- What `evaluate` returned, part by part.
evaluate_elim :
    (engine : RuleEngine) (conditions : List TransitionCondition) (context : RuleContext)
    {evaluation : RuleEvaluation}
    → evaluate engine conditions context ≡ ok evaluation
    → (judge_all context [] (selected_rules engine (sorted_members (distinct conditions)))
        ≡ ok evaluation.results)
      × (evaluation.unevaluated_conditions
          ≡ filter (λ c. not (is_some (rule_for engine c))) (sorted_members (distinct conditions)))
unfolding evaluate
evaluate_elim engine conditions context {evaluation} h =
    let requested = sorted_members (distinct conditions) in
    let (u, _, h1) = bind_elim (verify_facts context (selected_rules engine requested)) _ h in
    let (results, h2, h3) =
      bind_elim (judge_all context [] (selected_rules engine requested)) _ h1 in
    let p : record {
      requested_conditions = requested;
      results = results;
      unevaluated_conditions = filter (λ c. not (is_some (rule_for engine c))) requested;
    }
        ≡ evaluation =
      cc h3 in
    subst
      (λ (v : RuleEvaluation).
        (judge_all context [] (selected_rules engine requested) ≡ ok v.results)
        × (v.unevaluated_conditions ≡ filter (λ c. not (is_some (rule_for engine c))) requested))
      p (h2, refl)

-- A satisfied evaluation is one in which every rule that was selected ran and passed: of an engine
-- whose rules never answer "skipped" by themselves, when `evaluate` returned and `is_satisfied`
-- holds, no result is a failure or a skip. So a skipped prerequisite chain cannot hide a refusal.
pub evaluate-passed :
    (engine : RuleEngine) (conditions : List TransitionCondition) (context : RuleContext)
    (evaluation : RuleEvaluation)
    → ((rule : Rule) → Memᴰ rule engine.rules → NeverSkips rule)
    → evaluate engine conditions context ≡ ok evaluation
    → is_satisfied evaluation ≡ true
    → (r : RuleResult) → Memᴰ r evaluation.results
    → r.status ≡ RuleStatus.passed
unfolding is_satisfied failures selected_rules blocks
evaluate-passed engine conditions context evaluation never h satisfied r m =
    let requested = sorted_members (distinct conditions) in
    judge_all-passed context [] (selected_rules engine requested) (λ p. refl)
      (λ rule k.
        never rule (mem-filter_elim (λ (x : Rule). elem x.condition requested) engine.rules k).0)
      (evaluate_elim engine conditions context h).0 satisfied r m

mem-map : {A B : Type 0} (f : A → B) {x : A} {xs : List A} → Memᴰ x xs → Memᴰ (f x) (map f xs)
mem-map f (Memᴰ.head {x = y} {xs = ys} e) = Memᴰ.head (ap f e)
mem-map f (Memᴰ.tail {x = y} {xs = ys} m) = Memᴰ.tail (mem-map f m)

mem-distinct :
    {c : TransitionCondition} {cs : List TransitionCondition} → Memᴰ c cs → Memᴰ c (distinct cs)
unfolding distinct
mem-distinct {c} (Memᴰ.head {x = y} {xs = ys} e) = elim (Bool-cases (elem y (distinct ys))) [
  | inl again ↦
      rw again (subst (λ x. Memᴰ x (distinct ys)) (sym e) ((elem_iff y (distinct ys)).0 again))
  | inr new ↦ rw new (Memᴰ.head e)
]
mem-distinct (Memᴰ.tail {x = y} {xs = ys} m) =
    let later = mem-distinct m in
    elim (Bool-cases (elem y (distinct ys))) [
      | inl again ↦ rw again later
      | inr new ↦ rw new (Memᴰ.tail later)
    ]

-- No requested condition is lost: when `evaluate` returned, each condition that was asked about has a
-- result under its own name, or has no rule and is listed as unevaluated.
pub evaluate-covers :
    (engine : RuleEngine) (conditions : List TransitionCondition) (context : RuleContext)
    (evaluation : RuleEvaluation) (c : TransitionCondition)
    → evaluate engine conditions context ≡ ok evaluation
    → Memᴰ c conditions
    → ((r : RuleResult) × Memᴰ r evaluation.results × (r.condition ≡ c))
      ⊎ ((rule_for engine c ≡ none) × Memᴰ c evaluation.unevaluated_conditions)
unfolding rule_for selected_rules
evaluate-covers engine conditions context evaluation c h m =
    let requested = sorted_members (distinct conditions) in
    let asked : Memᴰ c requested = mem-sorted_intro _ (mem-distinct m) in
    let (judged, left) = evaluate_elim engine conditions context h in
    elim (Option-cases (rule_for engine c)) [
      | inl without ↦ inr (
        without,
        subst (λ xs. Memᴰ c xs) (sym left)
            (mem-filter_intro (λ x. not (is_some (rule_for engine x))) asked (rw without refl)),
      )
      | inr (rule, found) ↦
          let (there, named) = find-some (λ (x : Rule). same x.condition c) engine.rules found in
          let of_c : rule.condition ≡ c = (same_iff rule.condition c).0 named in
          let chosen =
            mem-filter_intro (λ (x : Rule). elem x.condition requested) there
              ((elem_iff rule.condition requested).1 (rw of_c asked)) in
          let listed = mem-map (λ (x : Rule). x.condition) chosen in
          inl (
            mem-map_elim (λ (r : RuleResult). r.condition) evaluation.results
              (subst (λ xs. Memᴰ c xs) (sym (judge_all-conditions context [] _ judged))
                (subst
                  (λ d. Memᴰ d (map (λ (x : Rule). x.condition) (selected_rules engine requested)))
                  of_c listed)))
    ]
