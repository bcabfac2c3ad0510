-- ===== src/Rules/Engine/Judging.antt =====
-- rules/engine.py: one round of the loop, and the loop, of `evaluate`.
use mathlib.Core.Path.{subst}
use ai_engineering_os.Base.{
  Bool, Bool-cases, List, Memᴰ, [], bind_elim, false, filter, filter_none, inl, inr, is_empty, map,
  ok, refl, same, same_iff, sorted, sym, true, ◌&&◌, ◌>>=◌, ◌∷◌, ◌≡◌,
}
use ai_engineering_os.Domain.Conditions.{transition_condition_enum}
use ai_engineering_os.Rules.Context.{RuleContext}
use ai_engineering_os.Rules.Results.{Rule, RuleResult, RuleStatus, is_failed, is_skipped}
use ai_engineering_os.Rules.Codes.{RuleId, rule_code_enum, rule_id_enum}
use ai_engineering_os.Rules.Engine.{Statuses, blocking, blocks, checked, judge, judge_all, skipped}

-- No rule answers "skipped" by itself: only the engine skips.
abbrev pub NeverSkips : Rule → Type 0
NeverSkips rule =
    (context : RuleContext) (r : RuleResult)
    → rule.evaluate context ≡ ok r
    → is_skipped r.status ≡ false

and_right : (a : Bool) {b : Bool} → (a && b) ≡ true → b ≡ true
and_right true h = h
and_right false h = cc

nil-mem : {r : RuleResult} {xs : List RuleResult} → [] ≡ xs → Memᴰ r xs → ⊥
nil-mem p (Memᴰ.head _) = cc
nil-mem p (Memᴰ.tail _) = cc

checked_elim :
    (rule : Rule) (found : RuleResult) {r : RuleResult}
    → checked rule found ≡ ok r
    → (found ≡ r) × (r.condition ≡ rule.condition)
unfolding checked
checked_elim rule found {r} h =
    elim (Bool-cases (same found.rule_id rule.rule_id && same found.condition rule.condition)) [
      | inl both ↦
          let p : found ≡ r = cc (rw both at h) in
          let q : found.condition ≡ rule.condition =
            (same_iff found.condition rule.condition).0
              (and_right (same found.rule_id rule.rule_id) both) in
          (p, subst (λ (x : RuleResult). x.condition ≡ rule.condition) p q)
      | inr other ↦ cc (rw other at h)
    ]

judge-condition :
    (context : RuleContext) (statuses : Statuses) (rule : Rule) {r : RuleResult}
    → judge context statuses rule ≡ ok r
    → r.condition ≡ rule.condition
unfolding judge skipped
judge-condition context statuses rule {r} h =
    elim (Bool-cases (is_empty (blocking statuses rule))) [
      | inl free ↦
          let (found, _, h1) = bind_elim (rule.evaluate context) (checked rule) (rw free at h) in
          (checked_elim rule found h1).1
      | inr blocked ↦
          let p : skipped rule (blocking statuses rule) ≡ r = cc (rw blocked at h) in
          subst (λ (x : RuleResult). x.condition ≡ rule.condition) p refl
    ]

pub judge_all-conditions :
    (context : RuleContext) (statuses : Statuses) (rules : List Rule) {results : List RuleResult}
    → judge_all context statuses rules ≡ ok results
    → map (λ (r : RuleResult). r.condition) results ≡ map (λ (rule : Rule). rule.condition) rules
unfolding judge_all
judge_all-conditions context statuses [] {results} h = cc h
judge_all-conditions context statuses (rule ∷ rest) {results} h =
    let (r, h0, h1) = bind_elim (judge context statuses rule) _ h in
    let (later, h2, h3) =
      bind_elim (judge_all context ((rule.rule_id, r.status) ∷ statuses) rest) _ h1 in
    let p : r ∷ later ≡ results = cc h3 in
    subst
      (λ (x : List RuleResult).
        map (λ (r : RuleResult). r.condition) x
        ≡ map (λ (rule : Rule). rule.condition) (rule ∷ rest))
      p
      (rw
        (
          judge-condition context statuses rule h0,
          judge_all-conditions context ((rule.rule_id, r.status) ∷ statuses) rest h2,
        )
        refl)

-- While nothing failed, nothing blocks, and the rule itself is asked.
judge-asked :
    (context : RuleContext) (statuses : Statuses) (rule : Rule) {r : RuleResult}
    → ((p : RuleId) → blocks statuses p ≡ false)
    → NeverSkips rule
    → judge context statuses rule ≡ ok r
    → is_skipped r.status ≡ false
unfolding judge blocking sorted
judge-asked context statuses rule {r} clear never h =
    let nothing : filter (blocks statuses) rule.requires ≡ [] =
      filter_none (blocks statuses) rule.requires (λ p _. clear p) in
    let asked : (rule.evaluate context >>= checked rule) ≡ ok r = rw nothing at h in
    let (found, h0, h1) = bind_elim (rule.evaluate context) (checked rule) asked in
    subst (λ (x : RuleResult). is_skipped x.status ≡ false) (checked_elim rule found h1).0
      (never context found h0)

blocks-passed :
    (statuses : Statuses) (rule_id : RuleId) (status : RuleStatus)
    → ((p : RuleId) → blocks statuses p ≡ false)
    → is_failed status ≡ false
    → is_skipped status ≡ false
    → (p : RuleId) → blocks ((rule_id, status) ∷ statuses) p ≡ false
unfolding blocks
blocks-passed statuses rule_id status clear a b p = elim (Bool-cases (same rule_id p)) [
  | inl here ↦ rw (here, a, b) refl
  | inr later ↦ rw later (clear p)
]

pub judge_all-passed :
    (context : RuleContext) (statuses : Statuses) (rules : List Rule) {results : List RuleResult}
    → ((p : RuleId) → blocks statuses p ≡ false)
    → ((rule : Rule) → Memᴰ rule rules → NeverSkips rule)
    → judge_all context statuses rules ≡ ok results
    → is_empty (filter (λ (r : RuleResult). is_failed r.status) results) ≡ true
    → (r : RuleResult) → Memᴰ r results
    → r.status ≡ RuleStatus.passed
unfolding judge_all filter
judge_all-passed context statuses [] {results} clear never h none_failed r m =
    absurd (nil-mem (cc h) m)
judge_all-passed context statuses (rule ∷ rest) {results} clear never h none_failed r m =
    let (first, h0, h1) = bind_elim (judge context statuses rule) _ h in
    let (later, h2, h3) =
      bind_elim (judge_all context ((rule.rule_id, first.status) ∷ statuses) rest) _ h1 in
    let p : first ∷ later ≡ results = cc h3 in
    let asked = judge-asked context statuses rule clear (never rule (Memᴰ.head refl)) h0 in
    let sound =
      subst
        (λ (x : List RuleResult).
          is_empty (filter (λ (r : RuleResult). is_failed r.status) x) ≡ true)
        (sym p) none_failed in
    elim (Bool-cases (is_failed first.status)) [
      | inl failed ↦ cc (rw failed at sound)
      | inr fine ↦
          let clear_later = blocks-passed statuses rule.rule_id first.status clear fine asked in
          let rest_passed =
            judge_all-passed context ((rule.rule_id, first.status) ∷ statuses) rest clear_later
              (λ x k. never x (Memᴰ.tail k)) h2 (rw fine at sound) in
          member first later (passed_of first.status fine asked) rest_passed
            (subst (λ (x : List RuleResult). Memᴰ r x) (sym p) m)
    ]
  where
    passed_of :
        (status : RuleStatus)
        → is_failed status ≡ false
        → is_skipped status ≡ false
        → status ≡ RuleStatus.passed
    passed_of RuleStatus.passed a b = refl
    passed_of RuleStatus.failed a b = cc a
    passed_of RuleStatus.skipped a b = cc b

    member :
        (first : RuleResult) (later : List RuleResult)
        → first.status ≡ RuleStatus.passed
        → ((x : RuleResult) → Memᴰ x later → x.status ≡ RuleStatus.passed)
        → Memᴰ r (first ∷ later)
        → r.status ≡ RuleStatus.passed
    member first later a b (Memᴰ.head e) = rw e a
    member first later a b (Memᴰ.tail k) = b r k
