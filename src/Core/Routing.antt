-- ===== src/Core/Routing.antt =====
-- core/routing.py: who reviews a submitted Task.
use ai_engineering_os.Base.{
  Bool, List, Option, any, filter, head?, not, sorted, sorted_by, ◌&&◌, ◌==◌,
}
use ai_engineering_os.Domain.Actor.{Actor, can_review}
use ai_engineering_os.Domain.Task.{Task}
use ai_engineering_os.Domain.Task.Revision.{TaskRevision, work_authors}

unfoldable pub is_eligible : Task → List TaskRevision → Actor → Bool
unfolding can_review work_authors any
is_eligible task revisions candidate =
    can_review candidate task.capability
    && not (any (λ author. author == candidate.id) (work_authors task revisions))

unfoldable pub eligible_reviewers : Task → List Actor → List TaskRevision → List Actor
unfolding filter sorted is_eligible
eligible_reviewers task candidates revisions =
    sorted_by (λ (a : Actor). a.id) (filter (is_eligible task revisions) candidates)

unfoldable pub select_reviewer : Task → List Actor → List TaskRevision → Option Actor
unfolding eligible_reviewers
select_reviewer task candidates revisions = head? (eligible_reviewers task candidates revisions)
