-- ===== src/Domain/Task/Revision.antt =====
-- domain/task.py: `TaskRevision`, `TaskRevisionHistory` and `work_authors`.
pub mod Additive
use ai_engineering_os.Base.{
  Bool, Error, List, Option, Result, [], all, err, filter, find, if◌then◌else◌, length, map, none,
  not, ok, some, true, ℕ, ◌&&◌, ◌++◌, ◌+◌, ◌==◌, ◌∷◌,
}
use ai_engineering_os.Domain.Task.{Task}

pub record TaskRevision : Type 0 where
  pub id : ℕ
  pub task_id : ℕ
  pub revision_number : ℕ
  pub created_by_worker_id : ℕ
  pub work_package_id : Option ℕ
  pub review_decision_id : Option ℕ
  pub qa_report_id : Option ℕ
  pub created_at : ℕ

pub record TaskRevisionHistory : Type 0 where
  pub task_id : ℕ
  pub revisions : List TaskRevision

-- The numbers `n, n + 1, ...` in order; `_revision_numbers_must_be_contiguous` starts at 1.
unfoldable pub numbered_from : ℕ → List TaskRevision → Bool
numbered_from n [] = true
numbered_from n (r ∷ rs) = r.revision_number == n && numbered_from (n + 1) rs

unfoldable pub is_valid_history : TaskRevisionHistory → Bool
unfolding all numbered_from
is_valid_history history =
    all (λ r. r.task_id == history.task_id) history.revisions && numbered_from 1 history.revisions

unfoldable pub validated_history : TaskRevisionHistory → Result TaskRevisionHistory
unfolding is_valid_history
validated_history history = if is_valid_history history then ok history else err Error.validation

unfoldable pub next_revision_number : TaskRevisionHistory → ℕ
next_revision_number history = length history.revisions + 1

-- `self.revisions[-1] if self.revisions else None`
unfoldable pub last? {ℓ} : {A : Type ℓ} → List A → Option A
last? [] = none
last? (x ∷ []) = some x
last? (x ∷ y ∷ ys) = last? (y ∷ ys)

unfoldable pub active_revision_of : TaskRevisionHistory → Option TaskRevision
unfolding last?
active_revision_of history = last? history.revisions

unfoldable pub is_consistent_with : TaskRevisionHistory → Task → Bool
is_consistent_with history task =
    task.id == history.task_id && task.active_revision_number == length history.revisions

unfoldable pub revision_of : TaskRevisionHistory → ℕ → Option TaskRevision
unfolding find
revision_of history revision_number =
    find (λ r. r.revision_number == revision_number) history.revisions

unfoldable pub append : TaskRevisionHistory → TaskRevision → Result TaskRevisionHistory
unfolding next_revision_number validated_history
append history revision =
    if not (revision.task_id == history.task_id)
    then err Error.immutable_record
    else if not (revision.revision_number == next_revision_number history)
    then err Error.revision_sequence
    else validated_history
        (record { task_id = history.task_id; revisions = history.revisions ++ revision ∷ [] })

abbrev maybe_worker : Option ℕ → List ℕ → List ℕ
maybe_worker none authors = authors
maybe_worker (some worker) authors = worker ∷ authors

-- The frozenset is a list here; only membership is asked of it.
unfoldable pub work_authors : Task → List TaskRevision → List ℕ
unfolding filter
work_authors task revisions =
    maybe_worker task.assigned_worker_id
      (map (λ r. r.created_by_worker_id) (filter (λ r. r.task_id == task.id) revisions))
