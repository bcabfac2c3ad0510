-- ===== src/Domain/Plan/Cycle/Order.antt =====
-- `_find_cycle` in domain/plan.py: what a clear search has done to its sets.
use mathlib.Core.Path.{subst}
use ai_engineering_os.Base.{
  Bool-cases, List, Memᴰ, String, [], any, any_elim, any_intro, ap, eq_iff, false, filter,
  filter_all, inl, inr, not, refl, same, str_eq, suc, sym, true, zero, ℕ, ◌++◌, ◌↔◌, ◌∙◌, ◌∷◌, ◌≡◌,
  ◌⊎◌,
}
use ai_engineering_os.Domain.Plan.Cycle.{
  Graph, Outcome, Search, drop_last, leave, successors, walk, walk_each,
}

-- Popping the path undoes the push.
drop_last-app : (path : List String) (node : String) → drop_last (path ++ node ∷ []) ≡ path
unfolding drop_last
drop_last-app [] node = refl
drop_last-app (x ∷ []) node = refl
drop_last-app (x ∷ y ∷ ys) node = ap (λ zs. x ∷ zs) (drop_last-app (y ∷ ys) node)

pub seen_iff : (x : String) (xs : List String) → (any (str_eq x) xs ≡ true) ↔ Memᴰ x xs
seen_iff x xs = (
  λ h.
      let (y, m, s) = any_elim (str_eq x) xs h in subst (λ z. Memᴰ z xs) (sym ((eq_iff x y).0 s)) m,
  λ m. any_intro (str_eq x) m ((eq_iff x x).1 refl),
)

-- A node that was not being visited is taken back out.
taken_back :
    (node : String) (visiting : List String)
    → any (str_eq node) visiting ≡ false
    → filter (λ x. not (str_eq x node)) (node ∷ visiting) ≡ visiting
unfolding filter any
taken_back node visiting h =
    rw ((eq_iff node node).1 refl) (
      filter_all (λ x. not (str_eq x node)) visiting
        (λ x m. apart x m (Bool-cases (str_eq x node))))
  where
    apart :
        (x : String)
        → Memᴰ x visiting
        → (str_eq x node ≡ true) ⊎ (str_eq x node ≡ false)
        → not (str_eq x node) ≡ true
    apart x m (inl same) =
        cc (h, any_intro (str_eq node) m ((eq_iff node x).1 (sym ((eq_iff x node).0 same))))
    apart x m (inr other) = rw other refl

module _ (graph : Graph) where
  -- Each finished node stands before all of its dependencies.
  abbrev pub IsOrdered : List String → Type 0
  IsOrdered [] = Unit {0}
  IsOrdered (x ∷ xs) = ((d : String) → Memᴰ d (successors graph x) → Memᴰ d xs) × IsOrdered xs

  -- What a search that ended clear has changed.
  pub record IsGrown (s t : Search) : Type 0 where
    pub visiting : t.visiting ≡ s.visiting
    pub path : t.path ≡ s.path
    pub ordered : IsOrdered s.visited → IsOrdered t.visited
    pub kept : (x : String) → Memᴰ x s.visited → Memᴰ x t.visited

  IsGrown-same : (s : Search) → IsGrown s s
  IsGrown-same s = record { visiting = refl; path = refl; ordered = λ h. h; kept = λ x m. m }

  IsGrown-chain : {s t u : Search} → IsGrown s t → IsGrown t u → IsGrown s u
  IsGrown-chain k l = record {
    visiting = l.visiting ∙ k.visiting;
    path = l.path ∙ k.path;
    ordered = λ h. l.ordered (k.ordered h);
    kept = λ x m. l.kept x (k.kept x m);
  }

  -- A visit that ends clear has finished its node.
  abbrev pub Finishes : (String → Search → Outcome × Search) → Type 0
  Finishes visit =
      (d : String) (s : Search)
      → (visit d s).0 ≡ Outcome.clear
      → IsGrown s (visit d s).1 × Memᴰ d (visit d s).1.visited

  pub walk_each-IsGrown :
      (visit : String → Search → Outcome × Search)
      → Finishes visit
      → (ds : List String) (s : Search) → (walk_each visit ds s).0 ≡ Outcome.clear
      → IsGrown s (walk_each visit ds s).1
        × ((d : String) → Memᴰ d ds → Memᴰ d (walk_each visit ds s).1.visited)
  unfolding walk_each
  walk_each-IsGrown visit each [] s h = (IsGrown-same s, λ d m. elim m [ ])
  walk_each-IsGrown visit each (d ∷ ds) s h =
      go (visit d s) (each d s) (λ t k. walk_each-IsGrown visit each ds t k) h
    where
      rest : Search → Outcome × Search
      rest t = walk_each visit ds t

      next : Outcome × Search → Outcome × Search
      next r = elim r.0 as (λ _. Outcome × Search) [
        | Outcome.clear ↦ rest r.1
        | Outcome.cycle nodes ↦ (Outcome.cycle nodes, r.1)
        | Outcome.out_of_fuel ↦ (Outcome.out_of_fuel, r.1)
      ]

      go :
          (r : Outcome × Search)
          → (r.0 ≡ Outcome.clear → IsGrown s r.1 × Memᴰ d r.1.visited)
          → ((t : Search)
              → (rest t).0 ≡ Outcome.clear
              → IsGrown t (rest t).1 × ((x : String) → Memᴰ x ds → Memᴰ x (rest t).1.visited))
          → (next r).0 ≡ Outcome.clear
          → IsGrown s (next r).1 × ((x : String) → Memᴰ x (d ∷ ds) → Memᴰ x (next r).1.visited)
      go (Outcome.clear, t) first others k =
          let (grown, finished) = first refl in
          let (onwards, all_finished) = others t k in
          (IsGrown-chain grown onwards, λ x m. member x (onwards.kept d finished) all_finished m)
        where
          member :
              (x : String)
              → Memᴰ d (rest t).1.visited
              → ((y : String) → Memᴰ y ds → Memᴰ y (rest t).1.visited)
              → Memᴰ x (d ∷ ds)
              → Memᴰ x (rest t).1.visited
          member x f a (Memᴰ.head e) = subst (λ y. Memᴰ y (rest t).1.visited) (sym e) f
          member x f a (Memᴰ.tail m) = a x m
      go (Outcome.cycle nodes, t) first others k = cc
      go (Outcome.out_of_fuel, t) first others k = cc

  -- A search that ends clear leaves what it was visiting as it found it, and has finished its node
  -- after all that the node depends on.
  pub walk-IsGrown : (fuel : ℕ) → Finishes (walk graph fuel)
  unfolding walk
  walk-IsGrown zero node s h = cc
  walk-IsGrown (suc fuel) node s h = elim (Bool-cases (any (str_eq node) s.visited)) [
    | inl seen ↦ rw seen (IsGrown-same s, (seen_iff node s.visited).0 seen)
    | inr fresh ↦ elim (Bool-cases (any (str_eq node) s.visiting)) [
      | inl busy ↦ cc (rw (fresh, busy) at h)
      | inr free ↦
          rw (fresh, free)
            (left free
              (walk_each-IsGrown (walk graph fuel) (walk-IsGrown fuel) (successors graph node)
                entered)
              (rw (fresh, free) at h))
    ]
  ]
    where
      entered : Search
      entered = record {
        visiting = node ∷ s.visiting;
        visited = s.visited;
        path = s.path ++ node ∷ [];
      }

      explored : Outcome × Search
      explored = walk_each (walk graph fuel) (successors graph node) entered

      left :
          any (str_eq node) s.visiting ≡ false
          → (explored.0 ≡ Outcome.clear
              → IsGrown entered explored.1
                × ((d : String) → Memᴰ d (successors graph node) → Memᴰ d explored.1.visited))
          → (leave node explored).0 ≡ Outcome.clear
          → IsGrown s (leave node explored).1 × Memᴰ node (leave node explored).1.visited
      left free grown k = close free explored grown k
        where
          close :
              any (str_eq node) s.visiting ≡ false
              → (r : Outcome × Search)
              → (r.0 ≡ Outcome.clear
                  → IsGrown entered r.1
                    × ((d : String) → Memᴰ d (successors graph node) → Memᴰ d r.1.visited))
              → (leave node r).0 ≡ Outcome.clear
              → IsGrown s (leave node r).1 × Memᴰ node (leave node r).1.visited
          close free (Outcome.clear, t) grown k = (
            record {
              path = rw (grown refl).0.path (drop_last-app s.path node);
              visiting = rw (grown refl).0.visiting (taken_back node s.visiting free);
              ordered = λ o. ((grown refl).1, (grown refl).0.ordered o);
              kept = λ x m. Memᴰ.tail ((grown refl).0.kept x m);
            },
            Memᴰ.head refl,
          )
          close free (Outcome.cycle nodes, t) grown k = cc
          close free (Outcome.out_of_fuel, t) grown k = cc
