-- ===== src/Domain/Plan/Cycle/Exact.antt =====
-- `_find_cycle` in domain/plan.py against its specification: a result of `None` means that no chain
-- of dependencies leads back to its start, and any other result is such a chain.
use mathlib.Core.Path.{subst}
use ai_engineering_os.Base.{
  Bool-cases, List, Memᴰ, String, [], any, ap, eq_iff, false, inl, inr, length, mem-append_left,
  mem-append_right, none, refl, some, str_eq, suc, sym, zero, ℕ, ◌++◌, ◌+◌, ◌↔◌, ◌∷◌, ◌≡◌,
}
use ai_engineering_os.Domain.Plan.Cycle.{
  Graph, Outcome, Search, explore, find_cycle, from_node, keys, leave, nodes_of, start, successors,
  walk, walk_each,
}
use ai_engineering_os.Domain.Plan.Cycle.Order.{Finishes, IsGrown, seen_iff, walk-IsGrown}
use ai_engineering_os.Domain.Plan.Cycle.Acyclic.{clear-acyclic}
use ai_engineering_os.Domain.Plan.Cycle.Fuel.{explore-HasFuel}
use ai_engineering_os.Domain.Plan.Cycle.Reaches.{Reaches, Reaches-prepend}

module _ (graph : Graph) where
  -- Each node depends on the one after it.
  abbrev pub IsLinked : List String → Type 0
  IsLinked [] = Unit {0}
  IsLinked (x ∷ []) = Unit {0}
  IsLinked (x ∷ y ∷ rest) = Memᴰ y (successors graph x) × IsLinked (y ∷ rest)

  -- A chain of dependencies that ends where it starts.
  abbrev pub IsCycle : List String → Type 0
  IsCycle nodes =
      (x : String) × (inner : List String) × (nodes ≡ x ∷ inner ++ x ∷ []) × IsLinked nodes

  IsLinked-rest : (x : String) (xs : List String) → IsLinked (x ∷ xs) → IsLinked xs
  IsLinked-rest x [] l = tt
  IsLinked-rest x (y ∷ rest) l = l.1

  IsLinked-snoc :
      (path : List String) (node d : String)
      → IsLinked (path ++ node ∷ [])
      → Memᴰ d (successors graph node)
      → IsLinked ((path ++ node ∷ []) ++ d ∷ [])
  IsLinked-snoc [] node d l m = (m, tt)
  IsLinked-snoc (p ∷ []) node d l m = (l.0, (m, tt))
  IsLinked-snoc (p ∷ q ∷ rest) node d l m = (l.0, IsLinked-snoc (q ∷ rest) node d l.1 m)

  -- From the node found again, the path closes a cycle.
  from_node-IsCycle :
      (node : String) (path : List String)
      → Memᴰ node path
      → IsLinked (path ++ node ∷ [])
      → IsCycle (from_node node path ++ node ∷ [])
  unfolding from_node
  from_node-IsCycle node [] m l = elim m [ ]
  from_node-IsCycle node (p ∷ ps) m l = elim (Bool-cases (str_eq p node)) [
    | inl here ↦ rw here (node, ps, ap (λ x. x ∷ ps ++ node ∷ []) ((eq_iff p node).0 here), l)
    | inr other ↦
        rw other (from_node-IsCycle node ps (later m other) (IsLinked-rest p (ps ++ node ∷ []) l))
  ]
    where
      later : Memᴰ node (p ∷ ps) → str_eq p node ≡ false → Memᴰ node ps
      later (Memᴰ.head e) other = cc (other, (eq_iff p node).1 (sym e))
      later (Memᴰ.tail k) other = k

  -- The first and the last node of a linked chain.
  IsLinked-Reaches :
      (x y : String) (inner : List String) → IsLinked (x ∷ inner ++ y ∷ []) → Reaches graph x y
  IsLinked-Reaches x y [] l = Reaches.direct y l.0
  IsLinked-Reaches x y (z ∷ rest) l = Reaches-prepend graph l.0 (IsLinked-Reaches z y rest l.1)

  IsCycle-Reaches : (nodes : List String) → IsCycle nodes → (x : String) × Reaches graph x x
  IsCycle-Reaches nodes (x, inner, e, l) = (x, IsLinked-Reaches x x inner (subst IsLinked e l))

  -- The search has a linked path to `d`, with all that it is visiting on it.
  record Approaches (s : Search) (d : String) : Type 0 where
    linked : IsLinked (s.path ++ d ∷ [])
    on_path : (v : String) → Memᴰ v s.visiting → Memᴰ v s.path

  abbrev Closes : Outcome → Type 0
  Closes Outcome.clear = Unit {0}
  Closes (Outcome.cycle nodes) = IsCycle nodes
  Closes Outcome.out_of_fuel = Unit {0}

  abbrev Reports : (String → Search → Outcome × Search) → Type 0
  Reports visit = (d : String) (s : Search) → Approaches s d → Closes (visit d s).0

  walk_each-Closes :
      (visit : String → Search → Outcome × Search)
      → Finishes graph visit
      → Reports visit
      → (ds : List String) (s : Search) → ((d : String) → Memᴰ d ds → Approaches s d)
      → Closes (walk_each visit ds s).0
  unfolding walk_each
  walk_each-Closes visit each reports [] s near = tt
  walk_each-Closes visit each reports (d ∷ ds) s near =
      go (visit d s) (each d s) (reports d s (near d (Memᴰ.head refl)))
        (λ t k. walk_each-Closes visit each reports ds t k)
    where
      go :
          (r : Outcome × Search)
          → (r.0 ≡ Outcome.clear → IsGrown graph s r.1 × Memᴰ d r.1.visited)
          → Closes r.0
          → ((t : Search)
              → ((x : String) → Memᴰ x ds → Approaches t x)
              → Closes (walk_each visit ds t).0)
          → Closes
              (elim r.0 as (λ _. Outcome × Search) [
                | Outcome.clear ↦ walk_each visit ds r.1
                | Outcome.cycle nodes ↦ (Outcome.cycle nodes, r.1)
                | Outcome.out_of_fuel ↦ (Outcome.out_of_fuel, r.1)
              ]).0
      go (Outcome.clear, t) first one others =
          others t (λ x m. moved (first refl).0 (near x (Memᴰ.tail m)))
        where
          moved : {x : String} → IsGrown graph s t → Approaches s x → Approaches t x
          moved {x} grown a = record {
            linked = rw grown.path a.linked;
            on_path = λ v m. rw grown.path (a.on_path v (subst (λ vs. Memᴰ v vs) grown.visiting m));
          }
      go (Outcome.cycle nodes, t) first one others = one
      go (Outcome.out_of_fuel, t) first one others = tt

  leave-Closes : (node : String) (r : Outcome × Search) → Closes r.0 → Closes (leave node r).0
  leave-Closes node (Outcome.clear, s) c = tt
  leave-Closes node (Outcome.cycle nodes, s) c = c
  leave-Closes node (Outcome.out_of_fuel, s) c = tt

  walk-Closes : (fuel : ℕ) → Reports (walk graph fuel)
  unfolding walk
  walk-Closes zero node s a = tt
  walk-Closes (suc fuel) node s a = elim (Bool-cases (any (str_eq node) s.visited)) [
    | inl seen ↦ rw seen tt
    | inr fresh ↦ elim (Bool-cases (any (str_eq node) s.visiting)) [
      | inl busy ↦
          rw (fresh, busy)
            (from_node-IsCycle node s.path (a.on_path node ((seen_iff node s.visiting).0 busy))
              a.linked)
      | inr free ↦
          rw (fresh, free)
            (leave-Closes node (walk_each (walk graph fuel) (successors graph node) entered) (
              walk_each-Closes (walk graph fuel) (walk-IsGrown graph fuel) (walk-Closes fuel)
                (successors graph node) entered onwards))
    ]
  ]
    where
      entered : Search
      entered = record {
        visiting = node ∷ s.visiting;
        visited = s.visited;
        path = s.path ++ node ∷ [];
      }

      onwards : (d : String) → Memᴰ d (successors graph node) → Approaches entered d
      onwards d m = record {
        linked = IsLinked-snoc s.path node d a.linked m;
        on_path = λ v k. still v k;
      }
        where
          still : (v : String) → Memᴰ v (node ∷ s.visiting) → Memᴰ v (s.path ++ node ∷ [])
          still v (Memᴰ.head e) = mem-append_right s.path (Memᴰ.head e)
          still v (Memᴰ.tail k) = mem-append_left (node ∷ []) (a.on_path v k)

  explore-Closes : Closes (explore graph)
  unfolding explore
  explore-Closes =
      let fuel = length graph + 2 in
      walk_each-Closes (walk graph fuel) (walk-IsGrown graph fuel) (walk-Closes fuel) (keys graph)
        start (λ d m. record { linked = tt; on_path = λ v k. elim k [ ] })

  -- A result of `_find_cycle` other than `None` is a chain of dependencies that ends where it starts.
  pub find_cycle-IsCycle : (nodes : List String) → find_cycle graph ≡ some nodes → IsCycle nodes
  unfolding find_cycle
  find_cycle-IsCycle nodes h = go (explore graph) explore-Closes (explore-HasFuel graph) h
    where
      go :
          (o : Outcome)
          → Closes o
          → ¬ (o ≡ Outcome.out_of_fuel)
          → nodes_of o ≡ some nodes
          → IsCycle nodes
      go Outcome.clear c enough k = cc
      go (Outcome.cycle found) c enough k = subst IsCycle (cc k) c
      go Outcome.out_of_fuel c enough k = absurd (enough refl)

  -- `_find_cycle` returns `None` exactly when no chain of dependencies, of any length, leads from a
  -- node back to itself.
  pub find_cycle-acyclic : (find_cycle graph ≡ none) ↔ ((x : String) → ¬ Reaches graph x x)
  unfolding find_cycle
  find_cycle-acyclic = (
    λ h. clear-acyclic graph (cleared (explore graph) h),
    λ free. quiet free (explore graph) explore-Closes (explore-HasFuel graph),
  )
    where
      cleared : (o : Outcome) → nodes_of o ≡ none → o ≡ Outcome.clear
      cleared Outcome.clear h = refl
      cleared (Outcome.cycle nodes) h = cc
      cleared Outcome.out_of_fuel h = cc

      quiet :
          ((x : String) → ¬ Reaches graph x x)
          → (o : Outcome) → Closes o
          → ¬ (o ≡ Outcome.out_of_fuel)
          → nodes_of o ≡ none
      quiet free Outcome.clear c enough = refl
      quiet free (Outcome.cycle nodes) c enough =
          let (x, r) = IsCycle-Reaches nodes c in absurd (free x r)
      quiet free Outcome.out_of_fuel c enough = absurd (enough refl)
