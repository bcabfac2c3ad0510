-- ===== src/Domain/Plan/Cycle.antt =====
-- domain/plan.py: `_find_cycle`, a depth-first search over the dependency graph.
-- The recursion of `walk` runs on fuel. A nested call stands for one more node on the path, and only
-- a key of the graph has successors: the fuel is two more than the number of keys.
pub mod Reaches
pub mod Order
pub mod Fuel
pub mod Acyclic
pub mod Exact
use ai_engineering_os.Base.{
  List, Option, String, [], any, filter, if◌then◌else◌, length, map, none, not, some, str_eq, suc,
  zero, ℕ, ◌++◌, ◌+◌, ◌∷◌,
}

abbrev pub Graph : Type 0
Graph = List (String × List String)

-- `graph.get(node, ())`; of two bindings of a key the last counts, as in a dictionary.
unfoldable pub successors : Graph → String → List String
successors [] node = []
successors ((key, targets) ∷ rest) node =
    let later = successors rest node in
    if any (λ (entry : String × List String). str_eq entry.0 node) rest
    then later
    else if str_eq key node
    then targets
    else []

pub record Search : Type 0 where
  pub visiting : List String
  pub visited : List String
  pub path : List String

pub data Outcome : Type 0 where
  clear : Outcome
  cycle : List String → Outcome
  out_of_fuel : Outcome

-- `path[path.index(node):]`
unfoldable pub from_node : String → List String → List String
from_node node [] = []
from_node node (x ∷ xs) = let later = from_node node xs in if str_eq x node then x ∷ xs else later

-- `list.pop`, on the last element.
unfoldable pub drop_last : List String → List String
drop_last [] = []
drop_last (x ∷ []) = []
drop_last (x ∷ y ∷ ys) = x ∷ drop_last (y ∷ ys)

-- The loop over the successors, which stops at the first outcome that is not clear.
unfoldable pub walk_each :
    (String → Search → Outcome × Search) → List String → Search → Outcome × Search
walk_each visit [] s = (Outcome.clear, s)
walk_each visit (d ∷ ds) s =
    let (outcome, s') = visit d s in
    elim outcome [
      | Outcome.clear ↦ walk_each visit ds s'
      | Outcome.cycle nodes ↦ (Outcome.cycle nodes, s')
      | Outcome.out_of_fuel ↦ (Outcome.out_of_fuel, s')
    ]

abbrev pub leave : String → Outcome × Search → Outcome × Search
leave node (Outcome.clear, s) = (
  Outcome.clear,
  record s {
    path = drop_last s.path;
    visiting = filter (λ x. not (str_eq x node)) s.visiting;
    visited = node ∷ s.visited;
  },
)
leave node (Outcome.cycle nodes, s) = (Outcome.cycle nodes, s)
leave node (Outcome.out_of_fuel, s) = (Outcome.out_of_fuel, s)

unfoldable pub walk : Graph → ℕ → String → Search → Outcome × Search
walk graph zero node s = (Outcome.out_of_fuel, s)
walk graph (suc fuel) node s =
    let entered : Search = record {
      visiting = node ∷ s.visiting;
      visited = s.visited;
      path = s.path ++ node ∷ [];
    } in
    let explored = walk_each (walk graph fuel) (successors graph node) entered in
    if any (str_eq node) s.visited
    then (Outcome.clear, s)
    else if any (str_eq node) s.visiting
    then (Outcome.cycle (from_node node s.path ++ node ∷ []), s)
    else leave node explored

abbrev pub keys : Graph → List String
keys graph = map (λ (entry : String × List String). entry.0) graph

abbrev pub start : Search
start = record { visiting = []; visited = []; path = [] }

unfoldable pub explore : Graph → Outcome
explore graph = (walk_each (walk graph (length graph + 2)) (keys graph) start).0

abbrev pub nodes_of : Outcome → Option (List String)
nodes_of (Outcome.cycle nodes) = some nodes
nodes_of Outcome.clear = none
nodes_of Outcome.out_of_fuel = some []

-- `None` exactly when the search was clear.
unfoldable pub find_cycle : Graph → Option (List String)
find_cycle graph = nodes_of (explore graph)
