-- ===== src/Storage/Repositories/Decisions.antt =====
-- storage/repositories/decision_repo.py, at the level of rows.
use ai_engineering_os.Domain.Enums.{
  ActorRole, actor_role_enum, capability_type_enum, decision_scope_enum, defect_status_enum,
  evidence_source_type_enum, evidence_type_enum, feature_status_enum, initiator_enum,
  plan_status_enum, qa_status_enum, review_outcome_enum, task_status_enum, work_package_status_enum,
}
use ai_engineering_os.Domain.Decision.{Decision, DecisionAcknowledgement, acknowledge}
use ai_engineering_os.Storage.Mappers.Decision.{
  DecisionAcknowledgementRow, DecisionRow, position_of_acknowledgement, to_acknowledgement_row,
  to_acknowledgement_rows, to_decision_row, to_domain_decision,
}
use ai_engineering_os.Domain.Task.Revision.{last?}
use ai_engineering_os.Storage.Repositories.{RowType, Rows, require_row, stage}
use ai_engineering_os.Base.{
  Error, List, Option, Result, [], and_then, any, err, false, filter, if◌then◌else◌, length, none,
  ok, some, sorted_by, ℕ, ◌&&◌, ◌++◌, ◌-◌, ◌==◌, ◌∷◌,
}

pub record DecisionRepository : Type 0 where
  pub rows : Rows DecisionRow
  pub acknowledgements : List DecisionAcknowledgementRow

-- An append-only row has no version, and is never saved again.
abbrev pub decision_row_type : RowType DecisionRow
decision_row_type = record {
  id_of = λ row. row.id;
  version_of = λ row. 0;
  at_version = λ version row. row;
  differs = λ a b. false;
}

abbrev put :
    DecisionRepository
    → {Value : Type 0} → Result Value × Rows DecisionRow
    → Result Value × DecisionRepository
put s (result, rows) = (result, record s { rows = rows })

unfoldable pub add : Decision → DecisionRepository → Result (Unit {0}) × DecisionRepository
add decision s =
    and_then (put s (stage decision_row_type (to_decision_row decision) s.rows)) (λ _ u. (
      ok tt,
      record u { acknowledgements = u.acknowledgements ++ to_acknowledgement_rows decision },
    ))

unfoldable pub acknowledgements_of :
    ℕ → List DecisionAcknowledgementRow → List DecisionAcknowledgementRow
acknowledgements_of entity_id children =
    sorted_by position_of_acknowledgement
      (filter (λ child. child.decision_id == entity_id) children)

unfoldable pub get_by_id : ℕ → DecisionRepository → Result Decision × DecisionRepository
get_by_id entity_id s =
    and_then (put s (require_row decision_row_type entity_id s.rows))
      (λ row u. (to_domain_decision row (acknowledgements_of entity_id u.acknowledgements), u))

-- The row of the last acknowledgement; the primary key is the Decision with the Actor.
unfoldable pub append_acknowledgement :
    Decision → DecisionRepository → Result Decision × DecisionRepository
append_acknowledgement updated s = appended (last? updated.acknowledgements)
  where
    inserted : DecisionAcknowledgementRow → Result Decision × DecisionRepository
    inserted row =
        if any
          (λ (x : DecisionAcknowledgementRow).
            x.decision_id == row.decision_id && x.actor_id == row.actor_id)
          s.acknowledgements
        then (err Error.integrity_constraint, s)
        else (ok updated, record s { acknowledgements = s.acknowledgements ++ row ∷ [] })

    appended : Option DecisionAcknowledgement → Result Decision × DecisionRepository
    appended none = (err Error.index_error, s)
    appended (some acknowledgement) =
        inserted
          (to_acknowledgement_row updated.id (length updated.acknowledgements - 1) acknowledgement)

-- The instant of the acknowledgement is `at`.
unfoldable pub add_acknowledgement :
    ℕ → ℕ → ActorRole → ℕ → DecisionRepository → Result Decision × DecisionRepository
add_acknowledgement decision_id actor_id actor_role at s =
    and_then (get_by_id decision_id s) (λ decision u.
      and_then (acknowledge decision actor_id actor_role at, u)
        (λ updated v. append_acknowledgement updated v))
