-- ===== src/State/Machine/Laws.antt =====
-- The evaluator of state/machine.py against its graph.
use mathlib.Core.Path.{subst}
use ai_engineering_os.Base.{
  Bool-cases, Error, List, Memᴰ, StrEnum, String, [], all, all_elim, any, any_intro, append-nil,
  append_assoc, arith, bind_elim, false, guard, inl, inr, ok, refl, same, same_iff, true, ◌++◌, ◌∷◌,
  ◌≡◌, ◌≢◌, ◌⊎◌,
}
use ai_engineering_os.State.Machine.{
  StateMachine, TransitionDefinition, declare, has_key, is_referenced, state_machine,
}

module _ {S : Type 0} ⦃e : StrEnum S⦄ where
  has_key_self : (t : TransitionDefinition S) → has_key t.from_state t.to_state t ≡ true
  has_key_self t =
      rw ((same_iff t.from_state t.from_state).1 refl, (same_iff t.to_state t.to_state).1 refl)

  pub has_key_eq :
      (f g : S) (t : TransitionDefinition S)
      → has_key f g t ≡ true
      → (t.from_state ≡ f) × (t.to_state ≡ g)
  has_key_eq f g t h =
      ((same_iff t.from_state f).0 (ground arith), (same_iff t.to_state g).0 (ground arith))

  pub has_key_intro :
      (f g : S) (t : TransitionDefinition S)
      → t.from_state ≡ f
      → t.to_state ≡ g
      → has_key f g t ≡ true
  has_key_intro f g t p q = rw ((same_iff t.from_state f).1 p, (same_iff t.to_state g).1 q)

  -- Two edges with one key are one edge.
  abbrev pub KeysUnique : List (TransitionDefinition S) → Type 0
  KeysUnique ts =
      (t u : TransitionDefinition S)
      → Memᴰ t ts
      → Memᴰ u ts
      → t.from_state ≡ u.from_state
      → t.to_state ≡ u.to_state
      → t ≡ u

  abbrev IsNew : List (TransitionDefinition S) → TransitionDefinition S → Type 0
  IsNew ts u = any (has_key u.from_state u.to_state) ts ≡ false

  mem-snoc :
      {t u : TransitionDefinition S} (ts : List (TransitionDefinition S))
      → Memᴰ t (ts ++ u ∷ [])
      → Memᴰ t ts ⊎ (t ≡ u)
  mem-snoc [] (Memᴰ.head p) = inr p
  mem-snoc [] (Memᴰ.tail m) = elim m [ ]
  mem-snoc (x ∷ ts) (Memᴰ.head p) = inl (Memᴰ.head p)
  mem-snoc (x ∷ ts) (Memᴰ.tail m) = elim (mem-snoc ts m) [
    | inl k ↦ inl (Memᴰ.tail k)
    | inr p ↦ inr p
  ]

  not_new :
      {t : TransitionDefinition S} (u : TransitionDefinition S) {ts : List (TransitionDefinition S)}
      → IsNew ts u
      → Memᴰ t ts
      → t.from_state ≡ u.from_state
      → t.to_state ≡ u.to_state
      → ⊥
  not_new {t} u new m p q =
      cc (any_intro (has_key u.from_state u.to_state) m (rw (← p, ← q) (has_key_self t)))

  KeysUnique-snoc :
      (u : TransitionDefinition S) (ts : List (TransitionDefinition S))
      → IsNew ts u
      → KeysUnique ts
      → KeysUnique (ts ++ u ∷ [])
  KeysUnique-snoc u ts new unique t v mt mv p q = elim (mem-snoc ts mt) [
    | inl kt ↦ elim (mem-snoc ts mv) [
      | inl kv ↦ unique t v kt kv p q
      | inr ev ↦ absurd (not_new u new kt (rw (← ev) p) (rw (← ev) q))
    ]
    | inr et ↦ elim (mem-snoc ts mv) [ inl kv ↦ absurd (not_new u new kv (cc) (cc)) | inr ev ↦ cc ]
  ]

  abbrev pub NoLoop : List (TransitionDefinition S) → Type 0
  NoLoop ts = (t : TransitionDefinition S) → Memᴰ t ts → t.from_state ≢ t.to_state

  NoLoop-snoc :
      (u : TransitionDefinition S) (ts : List (TransitionDefinition S))
      → same u.from_state u.to_state ≡ false
      → NoLoop ts
      → NoLoop (ts ++ u ∷ [])
  NoLoop-snoc u ts h loops t m p = elim (mem-snoc ts m) [
    | inl k ↦ loops t k p
    | inr q ↦ cc (h, (same_iff u.from_state u.to_state).1 (cc))
  ]

  -- What the loop of the constructor keeps: the edges in order, one for each key, none a loop.
  record IsDeclared (r ts : List (TransitionDefinition S)) : Type 0 where
    all_kept : r ≡ ts
    unique : KeysUnique r
    no_loop : NoLoop r

  declare_lem :
      (acc ts : List (TransitionDefinition S)) {r : List (TransitionDefinition S)}
      → declare acc ts ≡ ok r
      → KeysUnique acc
      → NoLoop acc
      → IsDeclared r (acc ++ ts)
  unfolding declare
  declare_lem acc [] {r} h unique loops =
      let p : r ≡ acc = ground arith in
      rw p (record { all_kept = rw append-nil; unique = unique; no_loop = loops })
  declare_lem acc (t ∷ ts) {r} h unique loops =
      elim (Bool-cases (any (has_key t.from_state t.to_state) acc)) [
        | inl twice ↦ absurd (ground arith)
        | inr new ↦ elim (Bool-cases (same t.from_state t.to_state)) [
          | inl loop ↦ absurd (ground arith)
          | inr no_loop ↦
              let rest : declare (acc ++ t ∷ []) ts ≡ ok r = ground arith in
              rw (← append_assoc acc (t ∷ []) ts) (
                declare_lem (acc ++ t ∷ []) ts rest (KeysUnique-snoc t acc new unique)
                  (NoLoop-snoc t acc no_loop loops))
        ]
      ]

  -- What the constructor guarantees of the machine that it returns.
  pub record IsWellFormed (m : StateMachine S) (ts : List (TransitionDefinition S)) : Type 0 where
    pub all_kept : m.transitions ≡ ts
    pub unique : KeysUnique m.transitions
    pub no_loop : NoLoop m.transitions
    pub referenced : (s : S) → Memᴰ s e.members → is_referenced m.transitions s ≡ true

  -- A declaration that the constructor accepts becomes a machine with exactly the declared edges, in
  -- order, at most one for each pair of states, none from a state to itself, and every state of the
  -- enumeration referenced by some edge.
  pub state_machine-IsWellFormed :
      (entity : String) (initial : S) (ts : List (TransitionDefinition S)) {m : StateMachine S}
      → state_machine entity initial ts ≡ ok m
      → IsWellFormed m ts
  unfolding state_machine
  state_machine-IsWellFormed entity initial ts {m} h =
      let (declared, d, rest) = bind_elim (declare [] ts) _ h in
      let (checked, g, last) =
        bind_elim (guard (all (is_referenced declared) e.members) Error.state_machine_definition) _
          rest in
      let facts = declare_lem [] ts d (λ t u m _ _ _. elim m [ ]) (λ t m _. elim m [ ]) in
      let built : StateMachine S = record {
        entity = entity;
        initial_state = initial;
        transitions = declared;
      } in
      let same_machine : built ≡ m = cc last in
      let all_checked : all (is_referenced declared) e.members ≡ true = ground (arith, g) in
      subst (λ x. IsWellFormed x ts) same_machine
        (record {
          all_kept = facts.all_kept;
          unique = facts.unique;
          no_loop = facts.no_loop;
          referenced = λ s member. all_elim (is_referenced declared) all_checked member;
        })
