-- ===== src/Domain/Plan/Cycle/Acyclic.antt =====
-- `_find_cycle` in domain/plan.py: after a clear search no node depends on itself.
use mathlib.Core.Path.{subst}
use ai_engineering_os.Base.{List, Memᴰ, String, [], all, length, ◌+◌, ◌∷◌, ◌≡◌}
use ai_engineering_os.Domain.Plan.Cycle.{
  Graph, Outcome, explore, keys, start, successors, walk, walk_each,
}
use ai_engineering_os.Domain.Plan.Cycle.Order.{IsOrdered, walk-IsGrown, walk_each-IsGrown}
use ai_engineering_os.Domain.Plan.Cycle.Reaches.{Reaches, successors-key}

module _ (graph : Graph) where
  -- Nothing that stands before all of its dependencies is on a cycle.
  IsOrdered-closed :
      {x d : String} (xs : List String)
      → IsOrdered graph xs
      → Memᴰ x xs
      → Memᴰ d (successors graph x)
      → Memᴰ d xs
  IsOrdered-closed [] o m k = elim m [ ]
  IsOrdered-closed {d = d} (y ∷ ys) o (Memᴰ.head e) k =
      Memᴰ.tail (o.0 d (subst (λ z. Memᴰ d (successors graph z)) e k))
  IsOrdered-closed (y ∷ ys) o (Memᴰ.tail m) k = Memᴰ.tail (IsOrdered-closed ys o.1 m k)

  reached-IsOrdered :
      {x y : String} (xs : List String)
      → IsOrdered graph xs
      → ((d : String) → Memᴰ d (successors graph x) → Memᴰ d xs)
      → Reaches graph x y
      → Memᴰ y xs
  reached-IsOrdered xs o first (Reaches.direct y m) = first y m
  reached-IsOrdered xs o first (Reaches.through z y r m) =
      IsOrdered-closed xs o (reached-IsOrdered xs o first r) m

  IsOrdered-acyclic :
      {x : String} (xs : List String) → IsOrdered graph xs → Memᴰ x xs → ¬ Reaches graph x x
  IsOrdered-acyclic [] o m r = elim m [ ]
  IsOrdered-acyclic {x} (y ∷ ys) o (Memᴰ.head e) r =
      IsOrdered-acyclic ys o.1
        (reached-IsOrdered ys o.1 (λ d m. o.0 d (subst (λ z. Memᴰ d (successors graph z)) e m)) r) r
  IsOrdered-acyclic (y ∷ ys) o (Memᴰ.tail m) r = IsOrdered-acyclic ys o.1 m r

  starts_at_key : {x y : String} → Reaches graph x y → Memᴰ x (keys graph)
  starts_at_key {x} (Reaches.direct y m) = successors-key graph x m
  starts_at_key (Reaches.through z y r m) = starts_at_key r

  pub clear-acyclic : explore graph ≡ Outcome.clear → (x : String) → ¬ Reaches graph x x
  unfolding explore
  clear-acyclic h x r =
      let fuel = length graph + 2 in
      let (grown, all) =
        walk_each-IsGrown graph (walk graph fuel) (walk-IsGrown graph fuel) (keys graph) start h in
      IsOrdered-acyclic (walk_each (walk graph fuel) (keys graph) start).1.visited
        (grown.ordered tt) (all x (starts_at_key r)) r
