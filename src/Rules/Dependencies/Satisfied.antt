-- ===== src/Rules/Dependencies/Satisfied.antt =====
-- rules/dependencies.py: what a satisfied rule says of the dependencies.
use ai_engineering_os.Base.{
  Bool-cases, List, Memᴰ, Option-cases, filter, filter-eq-nil, inl, inr, is_empty, is_empty_elim,
  is_some, not, not_elim, refl, same_iff, some, ℕ, ◌≡◌,
}
use ai_engineering_os.Domain.Enums.{
  TaskStatus, actor_role_enum, capability_type_enum, evidence_type_enum, feature_status_enum,
  initiator_enum, plan_status_enum, qa_status_enum, review_outcome_enum, task_status_enum,
  work_package_status_enum,
}
use ai_engineering_os.Domain.Task.{Task}
use ai_engineering_os.Rules.Results.{Finding}
use ai_engineering_os.Rules.Dependencies.{dependencies_finding, is_accepted, known_task, resolve}

resolve-mem :
    (tasks : List Task) {id : ℕ} {ids : List ℕ} {found : Task}
    → Memᴰ id ids
    → known_task tasks id ≡ some found
    → Memᴰ found (resolve tasks ids)
unfolding resolve
resolve-mem tasks {id} {ids} {found} (Memᴰ.head {x = y} {xs = ys} e) k =
    let here : known_task tasks y ≡ some found = cc (k, e) in rw (here, resolve) (Memᴰ.head refl)
resolve-mem tasks {id} {ids} {found} (Memᴰ.tail {x = y} {xs = ys} m) k =
    let later = resolve-mem tasks m k in
    elim (Option-cases (known_task tasks y)) [
      | inl nobody ↦ rw (nobody, resolve) later
      | inr (other, h) ↦ rw (h, resolve) (Memᴰ.tail later)
    ]

-- When the finding on a Task's dependencies is "satisfied", each declared dependency resolves, among
-- the Tasks that were supplied, to a Task that is ACCEPTED.
pub dependencies-accepted :
    (task : Task) (known : List Task) (id : ℕ)
    → dependencies_finding task known ≡ Finding.satisfied
    → Memᴰ id task.dependencies
    → (found : Task) × (known_task known id ≡ some found) × (found.status ≡ TaskStatus.accepted)
unfolding dependencies_finding
dependencies-accepted task known id h m = elim (Bool-cases (is_empty unresolved)) [
  | inr some_left ↦ cc (rw some_left at h)
  | inl all_known ↦ elim (Bool-cases (is_empty unaccepted)) [
    | inr some_open ↦ cc (rw (all_known, some_open) at h)
    | inl all_accepted ↦ elim (Option-cases (known_task known id)) [
      | inl nobody ↦
          let missing =
            filter-eq-nil (λ d. not (is_some (known_task known d)))
              (is_empty_elim unresolved all_known) m in
          cc (rw nobody at missing)
      | inr (found, k) ↦
          let open_no =
            filter-eq-nil (λ (t : Task). not (is_accepted t))
              (is_empty_elim unaccepted all_accepted) (resolve-mem known m k) in
          (found, k, (same_iff found.status TaskStatus.accepted).0 (not_elim _ open_no))
    ]
  ]
]
  where
    unresolved : List ℕ
    unresolved = filter (λ d. not (is_some (known_task known d))) task.dependencies

    unaccepted : List Task
    unaccepted = filter (λ t. not (is_accepted t)) (resolve known task.dependencies)
