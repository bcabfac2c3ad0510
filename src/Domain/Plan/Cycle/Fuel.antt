-- ===== src/Domain/Plan/Cycle/Fuel.antt =====
-- `_find_cycle` in domain/plan.py: the search never runs out of fuel.
use mathlib.Core.Path.{subst}
use ai_engineering_os.Base.{
  Bool, Bool-cases, List, Memᴰ, String, [], any, ap, arith, false, filter, inl, inr, length, not,
  refl, str_eq, suc, sym, true, zero, ℕ, ◌++◌, ◌+◌, ◌∙◌, ◌∷◌, ◌≡◌, ◌≤◌,
}
use ai_engineering_os.Domain.Plan.Cycle.{
  Graph, Outcome, Search, explore, keys, leave, start, successors, walk, walk_each,
}
use ai_engineering_os.Domain.Plan.Cycle.Order.{Finishes, IsGrown, seen_iff, walk-IsGrown}
use ai_engineering_os.Domain.Plan.Cycle.Reaches.{successors-key}

module _ {A : Type 0} (p q : A → Bool) (narrower : (x : A) → q x ≡ true → p x ≡ true) where
  filter_at_most : (xs : List A) → length (filter q xs) ≤ length (filter p xs)
  unfolding filter
  filter_at_most [] = ground arith
  filter_at_most (x ∷ xs) =
      let rest = filter_at_most xs in
      elim (Bool-cases (q x)) [
        | inl kept ↦ let also = narrower x kept in rw (kept, also) (ground arith)
        | inr dropped ↦ elim (Bool-cases (p x)) [
          | inl only ↦ rw (dropped, only) (ground arith)
          | inr neither ↦ rw (dropped, neither) (ground arith)
        ]
      ]

  filter_fewer :
      {y : A} (xs : List A)
      → Memᴰ y xs
      → p y ≡ true
      → q y ≡ false
      → length (filter q xs) + 1 ≤ length (filter p xs)
  unfolding filter
  filter_fewer [] m hp hq = elim m [ ]
  filter_fewer {y} (x ∷ xs) (Memᴰ.head e) hp hq =
      let px : p x ≡ true = cc in
      let qx : q x ≡ false = cc in let rest = filter_at_most xs in rw (px, qx) (ground arith)
  filter_fewer (x ∷ xs) (Memᴰ.tail m) hp hq =
      let rest = filter_fewer xs m hp hq in
      elim (Bool-cases (q x)) [
        | inl kept ↦ let also = narrower x kept in rw (kept, also) (ground arith)
        | inr dropped ↦ elim (Bool-cases (p x)) [
          | inl only ↦ rw (dropped, only) (ground arith)
          | inr neither ↦ rw (dropped, neither) (ground arith)
        ]
      ]

filter_short : {A : Type 0} (p : A → Bool) (xs : List A) → length (filter p xs) ≤ length xs
unfolding filter
filter_short p [] = ground arith
filter_short p (x ∷ xs) =
    let rest = filter_short p xs in
    elim (Bool-cases (p x)) [
      | inl kept ↦ rw kept (ground arith)
      | inr dropped ↦ rw dropped (ground arith)
    ]

length-keys : (graph : Graph) → length (keys graph) ≡ length graph
length-keys [] = refl
length-keys (entry ∷ rest) = ap suc (length-keys rest)

-- The keys that are not on the path of the search.
abbrev pub need : Graph → List String → ℕ
need graph visiting = length (filter (λ k. not (any (str_eq k) visiting)) (keys graph))

need_less :
    (graph : Graph) (node : String) (visiting : List String)
    → Memᴰ node (keys graph)
    → any (str_eq node) visiting ≡ false
    → need graph (node ∷ visiting) + 1 ≤ need graph visiting
need_less graph node visiting m free =
    filter_fewer (λ k. not (any (str_eq k) visiting)) (λ k. not (any (str_eq k) (node ∷ visiting)))
      (λ x h. narrower x h) (keys graph) m (rw free refl)
      (now ((seen_iff node (node ∷ visiting)).1 (Memᴰ.head refl)))
  where
    now :
        any (str_eq node) (node ∷ visiting) ≡ true
        → not (any (str_eq node) (node ∷ visiting)) ≡ false
    now h = rw h refl

    narrower :
        (x : String)
        → not (any (str_eq x) (node ∷ visiting)) ≡ true
        → not (any (str_eq x) visiting) ≡ true
    narrower x h = elim (Bool-cases (any (str_eq x) visiting)) [
      | inl seen ↦
          cc (h, (seen_iff x (node ∷ visiting)).1 (Memᴰ.tail ((seen_iff x visiting).0 seen)))
      | inr unseen ↦ rw unseen refl
    ]

abbrev pub HasFuel : Outcome × Search → Type 0
HasFuel r = ¬ (r.0 ≡ Outcome.out_of_fuel)

module _ (graph : Graph) where
  pub walk_each-HasFuel :
      (visit : String → Search → Outcome × Search)
      → Finishes graph visit
      → (visiting : List String)
      → ((d : String) (s : Search) → s.visiting ≡ visiting → HasFuel (visit d s))
      → (ds : List String) (s : Search) → s.visiting ≡ visiting
      → HasFuel (walk_each visit ds s)
  unfolding walk_each
  walk_each-HasFuel visit each visiting enough [] s e h = cc
  walk_each-HasFuel visit each visiting enough (d ∷ ds) s e h =
      go (visit d s) (each d s) (enough d s e)
        (λ t k. walk_each-HasFuel visit each visiting enough ds t k) h
    where
      rest : Search → Outcome × Search
      rest t = walk_each visit ds t

      next : Outcome × Search → Outcome × Search
      next r = elim r.0 as (λ _. Outcome × Search) [
        | Outcome.clear ↦ rest r.1
        | Outcome.cycle nodes ↦ (Outcome.cycle nodes, r.1)
        | Outcome.out_of_fuel ↦ (Outcome.out_of_fuel, r.1)
      ]

      go :
          (r : Outcome × Search)
          → (r.0 ≡ Outcome.clear → IsGrown graph s r.1 × Memᴰ d r.1.visited)
          → HasFuel r
          → ((t : Search) → t.visiting ≡ visiting → HasFuel (rest t))
          → HasFuel (next r)
      go (Outcome.clear, t) first one others k = others t ((first refl).0.visiting ∙ e) k
      go (Outcome.cycle nodes, t) first one others k = cc
      go (Outcome.out_of_fuel, t) first one others k = one refl

  walk_each_nil-HasFuel :
      (visit : String → Search → Outcome × Search) (s : Search) → HasFuel (walk_each visit [] s)
  unfolding walk_each
  walk_each_nil-HasFuel visit s h = cc

  leave-HasFuel : (node : String) (r : Outcome × Search) → HasFuel r → HasFuel (leave node r)
  leave-HasFuel node (Outcome.clear, s) enough h = cc
  leave-HasFuel node (Outcome.cycle nodes, s) enough h = cc
  leave-HasFuel node (Outcome.out_of_fuel, s) enough h = enough refl

  -- Two more than the keys off the path are enough.
  pub walk-HasFuel :
      (fuel : ℕ) (node : String) (s : Search)
      → need graph s.visiting + 2 ≤ fuel
      → HasFuel (walk graph fuel node s)
  unfolding walk
  walk-HasFuel zero node s bound = absurd (ground arith)
  walk-HasFuel (suc fuel) node s bound = elim (Bool-cases (any (str_eq node) s.visited)) [
    | inl seen ↦ rw seen (λ h. cc)
    | inr fresh ↦ elim (Bool-cases (any (str_eq node) s.visiting)) [
      | inl busy ↦ rw (fresh, busy) (λ h. cc)
      | inr free ↦
          rw (fresh, free)
            (leave-HasFuel node (walk_each (walk graph fuel) (successors graph node) entered) (
              inside free (λ x t b. walk-HasFuel fuel x t b) (successors graph node)
                (λ d m. successors-key graph node m)))
    ]
  ]
    where
      entered : Search
      entered = record {
        visiting = node ∷ s.visiting;
        visited = s.visited;
        path = s.path ++ node ∷ [];
      }

      empty : HasFuel (walk_each (walk graph fuel) [] entered)
      empty = walk_each_nil-HasFuel (walk graph fuel) entered

      inside :
          any (str_eq node) s.visiting ≡ false
          → ((x : String) (t : Search)
              → need graph t.visiting + 2 ≤ fuel
              → HasFuel (walk graph fuel x t))
          → (ds : List String) → ((d : String) → Memᴰ d ds → Memᴰ node (keys graph))
          → HasFuel (walk_each (walk graph fuel) ds entered)
      inside free onwards [] is_key = empty
      inside free onwards (d ∷ ds) is_key =
          let less = need_less graph node s.visiting (is_key d (Memᴰ.head refl)) free in
          walk_each-HasFuel (walk graph fuel) (walk-IsGrown graph fuel) (node ∷ s.visiting)
            (λ x t e. onwards x t (subst (λ v. need graph v + 2 ≤ fuel) (sym e) (omega arith)))
            (d ∷ ds) entered refl

  -- The fuel `_find_cycle` is given is enough: the search ends.
  pub explore-HasFuel : ¬ (explore graph ≡ Outcome.out_of_fuel)
  unfolding explore
  explore-HasFuel =
      walk_each-HasFuel (walk graph (length graph + 2)) (walk-IsGrown graph (length graph + 2)) []
        (λ x t e.
          walk-HasFuel (length graph + 2) x t
            (subst (λ v. need graph v + 2 ≤ length graph + 2) (sym e) (at_most)))
        (keys graph) start refl
    where
      at_most : need graph [] + 2 ≤ length graph + 2
      at_most =
          let short = filter_short (λ k. not (any (str_eq k) [])) (keys graph) in
          let same = length-keys graph in ground arith
