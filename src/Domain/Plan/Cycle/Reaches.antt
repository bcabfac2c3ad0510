-- ===== src/Domain/Plan/Cycle/Reaches.antt =====
-- The specification of `_find_cycle` in domain/plan.py: chains of dependencies.
use ai_engineering_os.Base.{
  Bool-cases, List, Memᴰ, String, [], any, eq_iff, inl, inr, str_eq, sym, ◌∷◌,
}
use ai_engineering_os.Domain.Plan.Cycle.{Graph, keys, successors}

-- One dependency, or more, lead from `x` to `y`.
pub data Reaches (graph : Graph) (x : String) : String → Type 0 where
  direct : (y : String) → Memᴰ y (successors graph x) → Reaches graph x y
  through : (z y : String) → Reaches graph x z → Memᴰ y (successors graph z) → Reaches graph x y

pub Reaches-prepend :
    (graph : Graph) {x y z : String}
    → Memᴰ y (successors graph x)
    → Reaches graph y z
    → Reaches graph x z
Reaches-prepend graph {x} {y} e (Reaches.direct z m) = Reaches.through y z (Reaches.direct y e) m
Reaches-prepend graph e (Reaches.through w z r m) =
    Reaches.through w z (Reaches-prepend graph e r) m

-- Only a key has dependencies.
pub successors-key :
    (graph : Graph) (node : String) {d : String}
    → Memᴰ d (successors graph node)
    → Memᴰ node (keys graph)
unfolding successors any
successors-key [] node m = elim m [ ]
successors-key ((key, targets) ∷ rest) node {d} m =
    elim (Bool-cases (any (λ (entry : String × List String). str_eq entry.0 node) rest)) [
      | inl later ↦ Memᴰ.tail (successors-key rest node (rw later at m))
      | inr last ↦ elim (Bool-cases (str_eq key node)) [
        | inl here ↦ Memᴰ.head (sym ((eq_iff key node).0 here))
        | inr other ↦ absurd (nothing (rw (last, other) at m))
      ]
    ]
  where
    nothing : Memᴰ d [] → ⊥
    nothing k = elim k [ ]
