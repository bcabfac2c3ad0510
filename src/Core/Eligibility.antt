-- ===== src/Core/Eligibility.antt =====
-- core/routing.py against rules/authority.py: the router and the rule that checks it agree.
use mathlib.Core.Path.{subst}
use ai_engineering_os.Base.{
  Bool, List, Memᴰ, Option-cases, [], any, arith, false, filter, find, find-none, find-some, head?,
  inl, inr, mem-filter_elim, mem-sorted_elim, ok, refl, some, true, ℕ, ◌==◌, ◌∷◌, ◌≡◌,
}
use ai_engineering_os.Domain.Actor.{Actor, can_review}
use ai_engineering_os.Domain.Task.{Task, is_reviewed_by, routed_to_reviewer, validated}
use ai_engineering_os.Domain.Task.Revision.{TaskRevision, work_authors}
use ai_engineering_os.Domain.Enums.{
  TaskStatus, actor_role_enum, capability_type_enum, evidence_type_enum, feature_status_enum,
  initiator_enum, plan_status_enum, qa_status_enum, review_outcome_enum, task_status_enum,
  work_package_status_enum,
}
use ai_engineering_os.Rules.Authority.{reviewer_finding, routed_reviewer_finding}
use ai_engineering_os.Rules.Results.{Finding}
use ai_engineering_os.Core.Routing.{eligible_reviewers, is_eligible, select_reviewer}

head-mem : {A : Type 0} (xs : List A) {x : A} → head? xs ≡ some x → Memᴰ x xs
head-mem [] h = cc
head-mem (y ∷ ys) h = Memᴰ.head (ground arith)

-- The identifiers of the candidates tell them apart.
abbrev pub IdsUnique : List Actor → Type 0
IdsUnique actors = (a b : Actor) → Memᴰ a actors → Memᴰ b actors → a.id ≡ b.id → a ≡ b

-- Whoever is selected is a candidate, is an active Reviewer with the Task's capability, and is none of
-- the authors of the work.
pub selected-eligible :
    (task : Task) (candidates : List Actor) (revisions : List TaskRevision) {actor : Actor}
    → select_reviewer task candidates revisions ≡ some actor
    → Memᴰ actor candidates × (is_eligible task revisions actor ≡ true)
unfolding select_reviewer eligible_reviewers
selected-eligible task candidates revisions h =
    mem-filter_elim (is_eligible task revisions) candidates
      (mem-sorted_elim _ (filter (is_eligible task revisions) candidates) (head-mem _ h))

routed_reviewer-satisfied :
    (task : Task) (revisions : List TaskRevision) (reviewer : ℕ) (actor : Actor)
    → is_eligible task revisions actor ≡ true
    → routed_reviewer_finding task revisions reviewer actor ≡ Finding.satisfied
unfolding routed_reviewer_finding is_eligible
routed_reviewer-satisfied task revisions reviewer actor h =
    let able : can_review actor task.capability ≡ true = ground arith in
    let apart : any (λ author. author == actor.id) (work_authors task revisions) ≡ false =
      ground arith in
    rw (able, apart) refl

routed_to_reviewer_elim :
    (task : Task) (reviewer at : ℕ) {routed : Task}
    → routed_to_reviewer task reviewer at ≡ ok routed
    → record task { status = TaskStatus.in_review; reviewer_id = some reviewer; updated_at = at }
      ≡ routed
unfolding routed_to_reviewer validated
routed_to_reviewer_elim task reviewer at h = ground arith

-- The routing that the OS proposes passes the rule that does not trust it: when the candidates have
-- distinct ids, the Task routed to the selected Reviewer satisfies `ReviewerAssignedRule` on the same
-- candidates and Revisions.
pub select_reviewer-satisfied :
    (task : Task) (candidates : List Actor) (revisions : List TaskRevision) (actor : Actor) (at : ℕ)
    (routed : Task)
    → IdsUnique candidates
    → select_reviewer task candidates revisions ≡ some actor
    → routed_to_reviewer task actor.id at ≡ ok routed
    → reviewer_finding routed candidates revisions routed.reviewer_id ≡ Finding.satisfied
unfolding reviewer_finding is_reviewed_by is_eligible work_authors
select_reviewer-satisfied task candidates revisions actor at routed unique h r =
    subst (λ (t : Task). reviewer_finding t candidates revisions t.reviewer_id ≡ Finding.satisfied)
      (routed_to_reviewer_elim task actor.id at r)
      (agree task candidates revisions actor at unique
        (selected-eligible task candidates revisions h))
  where
    agree :
        (task : Task) (candidates : List Actor) (revisions : List TaskRevision) (actor : Actor)
        (at : ℕ)
        → IdsUnique candidates
        → Memᴰ actor candidates × (is_eligible task revisions actor ≡ true)
        → reviewer_finding
            (record task {
              status = TaskStatus.in_review;
              reviewer_id = some actor.id;
              updated_at = at;
            })
            candidates
            revisions
            (some actor.id)
          ≡ Finding.satisfied
    agree task candidates revisions actor at unique (member, eligible) =
        elim (Option-cases (find named candidates)) [
          | inl missing ↦ absurd (lost (find-none named missing member))
          | inr (found, k) ↦
              let (there, is_named) = find-some named candidates k in
              let same : found ≡ actor = unique found actor there member (ground arith) in
              rw (k, reviewer_finding)
                (rw same (routed_reviewer-satisfied sent revisions actor.id actor eligible))
        ]
      where
        sent : Task
        sent = record task {
          status = TaskStatus.in_review;
          reviewer_id = some actor.id;
          updated_at = at;
        }

        named : Actor → Bool
        named candidate = is_reviewed_by sent candidate.id

        lost : named actor ≡ false → ⊥
        lost k = ground arith
