-- ===== src/Domain/Plan/Acyclic.antt =====
-- `FeaturePlan` in domain/plan.py: the dependencies of the plans its validators accept.
use ai_engineering_os.Base.{
  Bool-cases, Option, String, arith, inl, inr, is_some, none, not, ok, refl, some, true, ◌≡◌,
}
use ai_engineering_os.Domain.Plan.{FeaturePlan, dependency_graph, is_valid_plan, validated_plan}
use ai_engineering_os.Domain.Plan.Cycle.{find_cycle}
use ai_engineering_os.Domain.Plan.Cycle.Exact.{find_cycle-acyclic}
use ai_engineering_os.Domain.Plan.Cycle.Reaches.{Reaches}

no_cycle_found : {A : Type 0} (found : Option A) → not (is_some found) ≡ true → found ≡ none
no_cycle_found none h = refl
no_cycle_found (some x) h = cc

is_valid_plan-acyclic :
    (plan : FeaturePlan) → is_valid_plan plan ≡ true → find_cycle (dependency_graph plan) ≡ none
unfolding is_valid_plan
is_valid_plan-acyclic plan h = no_cycle_found (find_cycle (dependency_graph plan)) (ground arith)

-- In a Feature Plan that its validators accept, no Task definition depends on itself, directly or
-- through a chain of other definitions; and the plan is accepted as it was given.
pub validated_plan-acyclic :
    (plan accepted : FeaturePlan)
    → validated_plan plan ≡ ok accepted
    → (accepted ≡ plan) × ((key : String) → ¬ Reaches (dependency_graph accepted) key key)
unfolding validated_plan
validated_plan-acyclic plan accepted h = elim (Bool-cases (is_valid_plan plan)) [
  | inl valid ↦
      let same_plan : accepted ≡ plan = cc (rw valid at h) in
      (
        same_plan,
        rw same_plan
            ((find_cycle-acyclic (dependency_graph plan)).0 (is_valid_plan-acyclic plan valid)),
      )
  | inr refused ↦ cc (rw refused at h)
]
