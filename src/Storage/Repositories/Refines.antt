-- ===== src/Storage/Repositories/Refines.antt =====
-- storage/repositories/task_repo.py against the tables of Storage/Database, which hold entities: the
-- rows are those that are written for the entities, at any versions.
use ai_engineering_os.Storage.Repositories.{RowType, get_row, require_row, with_id}
use ai_engineering_os.Storage.Mappers.RoundTrip.{to_domain_task-to_task_row}
use ai_engineering_os.Storage.Mappers.Reading.{sorted-rows_from}
use ai_engineering_os.Storage.Mappers.{rows_from}
use ai_engineering_os.Base.{
  ==_iff, Bool, Bool-cases, Error, IsApart, List, Memᴰ, [], any, ap, append-nil, arith, err, false,
  filter, filter-append, filter_all, filter_none, find, inl, inr, map, none, ok, refl, some, sym,
  true, ℕ, ◌++◌, ◌+◌, ◌==◌, ◌↔◌, ◌∙◌, ◌∷◌, ◌≡◌, ◌⊎◌,
}
use ai_engineering_os.Domain.Task.{Task, is_valid_task}
use ai_engineering_os.Storage.Mappers.Task.{
  TaskDependencyRow, TaskRow, position_of_dependency, to_dependency_row, to_domain_task,
  to_task_dependency_rows, to_task_row,
}
use ai_engineering_os.Storage.Repositories.Tasks.{
  TaskRepository, dependency_map, get_by_id, task_row_type,
}
use ai_engineering_os.Storage.Database.{require_row as require_task}

abbrev pub recorded_tasks : List (Task × ℕ) → List Task
recorded_tasks pairs = map (λ (p : Task × ℕ). p.0) pairs

abbrev row_of : Task × ℕ → TaskRow
row_of (task, version) = record (to_task_row task) { version = version }

abbrev pub edges_of : List (Task × ℕ) → List TaskDependencyRow
edges_of [] = []
edges_of (p ∷ ps) = to_task_dependency_rows p.0 ++ edges_of ps

-- The store of some Tasks with their versions, as a new transaction finds it.
abbrev pub store_of : List (Task × ℕ) → TaskRepository
store_of pairs = record {
  rows = record { recorded = map row_of pairs; loaded = [] };
  edges = edges_of pairs;
}

abbrev key_of : Task × ℕ → ℕ
key_of p = p.0.id

edge_owner :
    (task : Task) (n : ℕ) (ds : List ℕ) (edge : TaskDependencyRow)
    → Memᴰ edge (rows_from (to_dependency_row task.id) n ds)
    → edge.task_id ≡ task.id
unfolding rows_from
edge_owner task n [] edge m = elim m [ ]
edge_owner task n (d ∷ ds) edge (Memᴰ.head e) = ap (λ (x : TaskDependencyRow). x.task_id) e
edge_owner task n (d ∷ ds) edge (Memᴰ.tail m) = edge_owner task (n + 1) ds edge m

abbrev belongs : ℕ → TaskDependencyRow → Bool
belongs id edge = any (λ i. i == edge.task_id) (id ∷ [])

belongs_iff : (id : ℕ) (edge : TaskDependencyRow) → (belongs id edge ≡ true) ↔ (edge.task_id ≡ id)
unfolding any
belongs_iff id edge = (
  λ h. sym ((==_iff id edge.task_id).0 (ground arith)),
  λ e. let same = (==_iff id edge.task_id).1 (sym e) in rw same refl,
)

belongs_not :
    (id : ℕ) (edge : TaskDependencyRow) → (edge.task_id ≡ id → ⊥) → belongs id edge ≡ false
belongs_not id edge other = elim (Bool-cases (belongs id edge)) [
  | inl hit ↦ absurd (other ((belongs_iff id edge).0 hit))
  | inr miss ↦ miss
]

others_edges :
    (id : ℕ) (task : Task)
    → (task.id ≡ id → ⊥)
    → filter (belongs id) (to_task_dependency_rows task) ≡ []
unfolding to_task_dependency_rows
others_edges id task other =
    filter_none (belongs id) (rows_from (to_dependency_row task.id) 0 task.dependencies) (λ edge m.
      belongs_not id edge (λ e. other (sym (edge_owner task 0 task.dependencies edge m) ∙ e)))

its_edges :
    (task : Task)
    → filter (belongs task.id) (to_task_dependency_rows task) ≡ to_task_dependency_rows task
unfolding to_task_dependency_rows
its_edges task =
    filter_all (belongs task.id) (rows_from (to_dependency_row task.id) 0 task.dependencies)
      (λ edge m. (belongs_iff task.id edge).1 (edge_owner task 0 task.dependencies edge m))

no_edges :
    (id : ℕ) (pairs : List (Task × ℕ))
    → ((p : Task × ℕ) → Memᴰ p pairs → p.0.id ≡ id → ⊥)
    → filter (belongs id) (edges_of pairs) ≡ []
unfolding filter
no_edges id [] other = refl
no_edges id (q ∷ qs) other =
    rw
      (
        filter-append (belongs id) (to_task_dependency_rows q.0) (edges_of qs),
        others_edges id q.0 (other q (Memᴰ.head refl)),
        no_edges id qs (λ p m. other p (Memᴰ.tail m)),
      )
      refl

-- The edges of one Task among all.
own_edges :
    (pairs : List (Task × ℕ)) (p : Task × ℕ)
    → IsApart key_of pairs
    → Memᴰ p pairs
    → filter (belongs p.0.id) (edges_of pairs) ≡ to_task_dependency_rows p.0
own_edges [] p apart m = elim m [ ]
own_edges (q ∷ qs) p apart (Memᴰ.head e) = rw e (
    filter-append (belongs q.0.id) (to_task_dependency_rows q.0) (edges_of qs)
    ∙ (rw (its_edges q.0, no_edges q.0.id qs (λ r m e. apart.0 r m (sym e)))
        (append-nil (to_task_dependency_rows q.0))))
own_edges (q ∷ qs) p apart (Memᴰ.tail m) =
    filter-append (belongs p.0.id) (to_task_dependency_rows q.0) (edges_of qs)
    ∙ rw (others_edges p.0.id q.0 (apart.0 p m), own_edges qs p apart.1 m) refl

read_edges :
    (pairs : List (Task × ℕ)) (p : Task × ℕ)
    → IsApart key_of pairs
    → Memᴰ p pairs
    → dependency_map (p.0.id ∷ []) (edges_of pairs) p.0.id ≡ to_task_dependency_rows p.0
unfolding dependency_map to_task_dependency_rows
read_edges pairs p apart m =
    let sorted_edges =
      sorted-rows_from (to_dependency_row p.0.id) position_of_dependency (λ n d. refl) 0
        p.0.dependencies in
    let own = own_edges pairs p apart m in
    rw (own, sorted_edges)
      (filter_all (λ (edge : TaskDependencyRow). edge.task_id == p.0.id)
        (rows_from (to_dependency_row p.0.id) 0 p.0.dependencies)
        (λ edge k. (==_iff edge.task_id p.0.id).1 (edge_owner p.0 0 p.0.dependencies edge k)))

module _ (differs : TaskRow → TaskRow → Bool) where
  abbrev tasks : RowType TaskRow
  tasks = task_row_type differs

  -- What is found under an identifier among the rows, and among the entities.
  Looked : ℕ → List (Task × ℕ) → Type 0
  Looked id pairs =
      ((with_id tasks id (map row_of pairs) ≡ none)
        × (require_task (λ (x : Task). x.id) id (recorded_tasks pairs) ≡ err Error.not_found))
      ⊎ ((p : Task × ℕ) × Memᴰ p pairs
          × (p.0.id ≡ id)
          × (with_id tasks id (map row_of pairs) ≡ some (row_of p))
          × (require_task (λ (x : Task). x.id) id (recorded_tasks pairs) ≡ ok p.0))

  row_id : (p : Task × ℕ) → (row_of p).id ≡ p.0.id
  unfolding to_task_row
  row_id p = refl

  look : (id : ℕ) (pairs : List (Task × ℕ)) → Looked id pairs
  unfolding Looked find require_task
  look id [] = inl (refl, refl)
  look id (p ∷ ps) = elim (Bool-cases (p.0.id == id)) [
    | inl here ↦
        inr (p, Memᴰ.head refl, (==_iff p.0.id id).0 here, rw (row_id p, here) refl, rw here refl)
    | inr there ↦ elim (look id ps) [
      | inl (rows, entities) ↦ inl (rw (row_id p, there, rows) refl, rw (there, entities) refl)
      | inr (q, m, e, rows, entities) ↦
          inr (q, Memᴰ.tail m, e, rw (row_id p, there, rows) refl, rw (there, entities) refl)
    ]
  ]

  read_versioned :
      (p : Task × ℕ)
      → is_valid_task p.0 ≡ true
      → to_domain_task (row_of p) (to_task_dependency_rows p.0) ≡ ok p.0
  unfolding to_domain_task
  read_versioned p valid = to_domain_task-to_task_row p.0 valid

  none_held : (id : ℕ) → with_id tasks id [] ≡ none
  unfolding find
  none_held id = refl

  read_found :
      (pairs : List (Task × ℕ)) (id : ℕ) (p : Task × ℕ)
      → IsApart key_of pairs
      → Memᴰ p pairs
      → p.0.id ≡ id
      → is_valid_task p.0 ≡ true
      → to_domain_task (row_of p) (dependency_map (id ∷ []) (edges_of pairs) (row_of p).id) ≡ ok p.0
  unfolding to_task_row
  read_found pairs id p apart m e valid =
      rw (sym e, row_id p, read_edges pairs p apart m) (read_versioned p valid)

  -- Reading a Task from the rows is reading it from the table of entities: for the rows that are
  -- written for some accepted Tasks with distinct identifiers, at any versions, `get_by_id` of a new
  -- transaction returns the Task that is recorded under the identifier, its dependencies in their
  -- order, and raises where there is none.
  pub get_by_id-require_row :
      (pairs : List (Task × ℕ)) (id : ℕ)
      → IsApart (λ (p : Task × ℕ). p.0.id) pairs
      → ((p : Task × ℕ) → Memᴰ p pairs → is_valid_task p.0 ≡ true)
      → (get_by_id differs id (store_of pairs)).0
        ≡ require_task (λ (x : Task). x.id) id (recorded_tasks pairs)
  unfolding get_by_id require_row get_row Looked
  get_by_id-require_row pairs id apart valid = elim (look id pairs) [
    | inl (rows, entities) ↦ rw (none_held id, rows, entities) refl
    | inr (p, m, e, rows, entities) ↦
        rw (none_held id, rows, entities) (read_found pairs id p apart m e (valid p m))
  ]
