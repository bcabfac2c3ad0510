-- ===== src/Storage/Repositories/Reviews.antt =====
-- storage/repositories/review_decision_repo.py, at the level of rows.
use ai_engineering_os.Domain.Decision.{ReviewDecision}
use ai_engineering_os.Storage.Mappers.Decision.{
  ReviewDecisionRow, to_domain_review_decision, to_review_decision_row,
}
use ai_engineering_os.Storage.Repositories.{RowType, Rows, listed, require_row, rows_where, stage}
use ai_engineering_os.Base.{Error, List, Result, [], and_then, err, false, ok, ℕ, ◌==◌, ◌∷◌}

-- An append-only row has no version, and is never saved again.
abbrev pub review_row_type : RowType ReviewDecisionRow
review_row_type = record {
  id_of = λ row. row.id;
  version_of = λ row. 0;
  at_version = λ version row. row;
  differs = λ a b. false;
}

unfoldable pub add :
    ReviewDecision → Rows ReviewDecisionRow → Result (Unit {0}) × Rows ReviewDecisionRow
add review_decision s = stage review_row_type (to_review_decision_row review_decision) s

unfoldable pub get_by_id :
    ℕ → Rows ReviewDecisionRow → Result ReviewDecision × Rows ReviewDecisionRow
get_by_id entity_id s =
    and_then (require_row review_row_type entity_id s) (λ row u. (to_domain_review_decision row, u))

unfoldable pub list_by_task_revision :
    ℕ → Rows ReviewDecisionRow → Result (List ReviewDecision) × Rows ReviewDecisionRow
list_by_task_revision task_revision_id s = listed to_domain_review_decision (
    rows_where review_row_type (λ row. row.task_revision_id == task_revision_id)
      (λ row. row.created_at) s)

unfoldable pub get_by_task_revision :
    ℕ → Rows ReviewDecisionRow → Result ReviewDecision × Rows ReviewDecisionRow
get_by_task_revision task_revision_id s = and_then (list_by_task_revision task_revision_id s) first
  where
    first :
        List ReviewDecision
        → Rows ReviewDecisionRow
        → Result ReviewDecision × Rows ReviewDecisionRow
    first [] u = (err Error.not_found, u)
    first (review ∷ reviews) u = (ok review, u)
