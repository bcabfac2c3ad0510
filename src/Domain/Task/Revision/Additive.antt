-- ===== src/Domain/Task/Revision/Additive.antt =====
-- domain/task.py, `TaskRevisionHistory.append`: what a history accepts.
use ai_engineering_os.Base.{
  ==_iff, Bool, Bool-cases, List, [], all, arith, inl, inr, is_ok, length, ok, refl, true, ℕ, ◌++◌,
  ◌+◌, ◌==◌, ◌∷◌, ◌≡◌,
}
use ai_engineering_os.Domain.Task.Revision.{
  TaskRevision, TaskRevisionHistory, append, is_valid_history, next_revision_number, numbered_from,
  validated_history,
}

all_grow :
    (p : TaskRevision → Bool) (xs : List TaskRevision) (x : TaskRevision)
    → all p xs ≡ true
    → p x ≡ true
    → all p (xs ++ x ∷ []) ≡ true
unfolding all
all_grow p [] x h last = ground arith
all_grow p (y ∷ ys) x h last = let rest = all_grow p ys x (ground arith) last in ground arith

numbered_grow :
    (n : ℕ) (xs : List TaskRevision) (x : TaskRevision)
    → numbered_from n xs ≡ true
    → x.revision_number ≡ n + length xs
    → numbered_from n (xs ++ x ∷ []) ≡ true
unfolding numbered_from
numbered_grow n [] x h last = ground arith
numbered_grow n (y ∷ ys) x h last =
    let rest = numbered_grow (n + 1) ys x (ground arith) (omega arith) in ground arith

-- The history with one Revision more, behind the others.
abbrev pub grown : TaskRevisionHistory → TaskRevision → TaskRevisionHistory
grown history revision = record {
  task_id = history.task_id;
  revisions = history.revisions ++ revision ∷ [];
}

grown-IsValid :
    (history : TaskRevisionHistory) (revision : TaskRevision)
    → is_valid_history history ≡ true
    → revision.task_id ≡ history.task_id
    → revision.revision_number ≡ length history.revisions + 1
    → is_valid_history (grown history revision) ≡ true
unfolding is_valid_history
grown-IsValid history revision valid own next =
    let same_task =
      all_grow (λ r. r.task_id == history.task_id) history.revisions revision (ground arith)
        ((==_iff _ _).1 own) in
    let numbered = numbered_grow 1 history.revisions revision (ground arith) (omega arith) in
    rw (same_task, numbered) refl

-- A history that its validators accept takes exactly the Revisions of its own Task that carry one more
-- than the number of its Revisions: such a Revision is appended behind the others, and the longer
-- history passes the validators; for every other Revision, `append` raises.
pub append_iff :
    (history : TaskRevisionHistory) (revision : TaskRevision)
    → is_valid_history history ≡ true
    → ((revision.task_id ≡ history.task_id)
          × (revision.revision_number ≡ length history.revisions + 1)
        → (append history revision ≡ ok (grown history revision))
          × (is_valid_history (grown history revision) ≡ true))
      × (is_ok (append history revision) ≡ true
          → (revision.task_id ≡ history.task_id)
            × (revision.revision_number ≡ length history.revisions + 1))
unfolding append validated_history next_revision_number
append_iff history revision valid = (accepts, accepted)
  where
    accepted :
        is_ok (append history revision) ≡ true
        → (revision.task_id ≡ history.task_id)
          × (revision.revision_number ≡ length history.revisions + 1)
    accepted h = elim (Bool-cases (revision.task_id == history.task_id)) [
      | inr other ↦ cc (rw other at h)
      | inl own ↦ elim (Bool-cases (revision.revision_number == next_revision_number history)) [
        | inr gap ↦ cc (rw (own, gap) at h)
        | inl next ↦ ((==_iff _ _).0 own, (==_iff _ _).0 next)
      ]
    ]

    accepts :
        (revision.task_id ≡ history.task_id)
          × (revision.revision_number ≡ length history.revisions + 1)
        → (append history revision ≡ ok (grown history revision))
          × (is_valid_history (grown history revision) ≡ true)
    accepts (own, next) =
        let longer = grown-IsValid history revision valid own next in
        (
          rw
              (
                (==_iff revision.task_id history.task_id).1 own,
                (==_iff revision.revision_number (length history.revisions + 1)).1 next,
                longer,
              )
              refl,
          longer,
        )
