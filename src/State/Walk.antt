-- ===== src/State/Walk.antt =====
-- Sequences of requested transitions through a lifecycle of src/ai_engineering_os/state.
use ai_engineering_os.Base.{
  Bool, Bool-cases, List, Memᴰ, Option, StrEnum, [], all, all_elim, ap, arith, false, if◌then◌else◌,
  inl, inr, none, not, same, same_iff, some, sym, true, ◌&&◌, ◌||◌, ◌∷◌, ◌≡◌,
}
use ai_engineering_os.Domain.Enums.{
  Initiator, actor_role_enum, capability_type_enum, evidence_type_enum, feature_status_enum,
  initiator_enum, plan_status_enum, task_status_enum, work_package_status_enum,
}
use ai_engineering_os.State.Machine.Verdict.{Verdict, evaluate-Verdict}
use ai_engineering_os.State.Machine.{StateMachine, can_transition, evaluate}

-- A request: the state that is asked for, and who asks.
abbrev pub Request : Type 0 → Type 0
Request S = S × Initiator

module _ {S : Type 0} ⦃e : StrEnum S⦄ where
  -- The state after the requests, or `none` if one of them is refused.
  unfoldable pub walk : StateMachine S → S → List (Request S) → Option S
  walk m s [] = some s
  walk m s ((target, i) ∷ rest) =
      let later = walk m target rest in if can_transition m s target i then later else none

  pub walk_step :
      (m : StateMachine S) (s target : S) (i : Initiator) (rest : List (Request S)) {end : S}
      → walk m s ((target, i) ∷ rest) ≡ some end
      → (can_transition m s target i ≡ true) × (walk m target rest ≡ some end)
  unfolding walk
  walk_step m s target i rest h = ground arith

  -- `q` holds of each edge and each initiator of it.
  abbrev pub on_edges : StateMachine S → (S → S → Initiator → Bool) → Bool
  on_edges m q = all (λ t. all (q t.from_state t.to_state) t.allowed_initiators) m.transitions

  -- What holds of the graph's edges holds of every transition that the evaluator allows.
  pub on_edges_elim :
      (m : StateMachine S) (q : S → S → Initiator → Bool) {s target : S} {i : Initiator}
      → on_edges m q ≡ true
      → can_transition m s target i ≡ true
      → q s target i ≡ true
  unfolding can_transition
  on_edges_elim m q {s} {target} {i} checked h = go (evaluate-Verdict m s target i)
    where
      go : Verdict m s target i (evaluate m s target i) → q s target i ≡ true
      go (Verdict.terminal _ no_way _) = cc
      go (Verdict.undefined _ _ no_way _) = cc
      go (Verdict.unauthorized _ _ _ no_way _) = cc
      go (Verdict.allowed t (k, p, r) member _ _ _) =
          let edge : all (q t.from_state t.to_state) t.allowed_initiators ≡ true =
            all_elim (λ u. all (q u.from_state u.to_state) u.allowed_initiators) checked k in
          let found : q t.from_state t.to_state i ≡ true =
            all_elim (q t.from_state t.to_state) edge member in
          rw (p, r) at found

  -- The only requests that lead from outside `inside` into it are `gate`.
  abbrev pub enters_by : (S → Bool) → Request S → S → S → Initiator → Bool
  enters_by inside gate s target i =
      inside s || (not (inside target) || (same target gate.0 && same i gate.1))

  entering :
      (inside : S → Bool) (gate : Request S) (s target : S) (i : Initiator)
      → enters_by inside gate s target i ≡ true
      → inside s ≡ false
      → inside target ≡ true
      → gate ≡ (target, i)
  entering inside gate s target i h out inn =
      let both : (same target gate.0 && same i gate.1) ≡ true = ground arith in
      let p : target ≡ gate.0 = (same_iff target gate.0).0 (ground arith) in
      let q : i ≡ gate.1 = (same_iff i gate.1).0 (ground arith) in λ k. (sym p k, sym q k)

  -- A walk from outside a set of states into it contains the request that is the set's only gate.
  pub walk_gate :
      (m : StateMachine S) (inside : S → Bool) (gate : Request S) (s : S) (rs : List (Request S))
      {end : S}
      → on_edges m (enters_by inside gate) ≡ true
      → inside s ≡ false
      → inside end ≡ true
      → walk m s rs ≡ some end
      → Memᴰ gate rs
  unfolding walk
  walk_gate m inside gate s [] {end} checked out inn h = absurd (lose (ground arith))
    where
      lose : s ≡ end → ⊥
      lose p = cc (ap inside p)
  walk_gate m inside gate s ((target, i) ∷ rest) checked out inn h =
      let (step, later) = walk_step m s target i rest h in
      elim (Bool-cases (inside target)) [
        | inl arrived ↦ Memᴰ.head (
            entering inside gate s target i (on_edges_elim m (enters_by inside gate) checked step)
              out arrived)
        | inr still_out ↦
            Memᴰ.tail (walk_gate m inside gate target rest checked still_out inn later)
      ]
