-- ===== src/Storage/Mappers/Decision.antt =====
-- storage/models/decision.py and storage/mappers/decision.py.
use ai_engineering_os.Base.{List, Result, String, ok, sorted_by, true, ℕ, ◌>>=◌}
use ai_engineering_os.Storage.Mappers.{read_all, read_member, reconstruct, rows_from, value_of}
use ai_engineering_os.Domain.Enums.{
  actor_role_enum, capability_type_enum, decision_scope_enum, defect_status_enum,
  evidence_source_type_enum, evidence_type_enum, feature_status_enum, initiator_enum,
  plan_status_enum, qa_status_enum, review_outcome_enum, task_status_enum, work_package_status_enum,
}
use ai_engineering_os.Domain.Decision.{
  Decision, DecisionAcknowledgement, ReviewDecision, is_valid_decision,
}

pub record DecisionRow : Type 0 where
  pub id : ℕ
  pub scope : String
  pub decided_by_role : String
  pub decided_by_id : ℕ
  pub problem : String
  pub decision_text : String
  pub reasoning : String
  pub alternatives_considered : List String
  pub affected_domains : List String
  pub created_at : ℕ

unfoldable pub to_decision_row : Decision → DecisionRow
to_decision_row decision = record {
  id = decision.id;
  scope = value_of decision.scope;
  decided_by_role = value_of decision.decided_by_role;
  decided_by_id = decision.decided_by_id;
  problem = decision.problem;
  decision_text = decision.decision_text;
  reasoning = decision.reasoning;
  alternatives_considered = decision.alternatives_considered;
  affected_domains = decision.affected_domains;
  created_at = decision.created_at;
}

pub record DecisionAcknowledgementRow : Type 0 where
  pub decision_id : ℕ
  pub actor_id : ℕ
  pub position : ℕ
  pub actor_role : String
  pub acknowledged_at : ℕ

abbrev pub to_acknowledgement_row : ℕ → ℕ → DecisionAcknowledgement → DecisionAcknowledgementRow
to_acknowledgement_row decision_id position acknowledgement = record {
  decision_id = decision_id;
  actor_id = acknowledgement.actor_id;
  position = position;
  actor_role = value_of acknowledgement.actor_role;
  acknowledged_at = acknowledgement.acknowledged_at;
}

unfoldable pub to_acknowledgement_rows : Decision → List DecisionAcknowledgementRow
to_acknowledgement_rows decision =
    rows_from (to_acknowledgement_row decision.id) 0 decision.acknowledgements

abbrev pub position_of_acknowledgement : DecisionAcknowledgementRow → ℕ
position_of_acknowledgement row = row.position

unfoldable pub read_acknowledgement : DecisionAcknowledgementRow → Result DecisionAcknowledgement
read_acknowledgement row = do
  actor_role ← read_member row.actor_role
  ok (record {
    actor_id = row.actor_id;
    actor_role = actor_role;
    acknowledged_at = row.acknowledged_at;
  })

unfoldable pub to_domain_decision : DecisionRow → List DecisionAcknowledgementRow → Result Decision
to_domain_decision row acknowledgements_rows = do
  scope ← read_member row.scope
  decided_by_role ← read_member row.decided_by_role
  acknowledgements ←
      read_all read_acknowledgement (sorted_by position_of_acknowledgement acknowledgements_rows)
  reconstruct is_valid_decision (record {
    id = row.id;
    scope = scope;
    decided_by_role = decided_by_role;
    decided_by_id = row.decided_by_id;
    problem = row.problem;
    decision_text = row.decision_text;
    reasoning = row.reasoning;
    alternatives_considered = row.alternatives_considered;
    affected_domains = row.affected_domains;
    created_at = row.created_at;
    acknowledgements = acknowledgements;
  })

pub record ReviewDecisionRow : Type 0 where
  pub id : ℕ
  pub task_revision_id : ℕ
  pub reviewer_id : ℕ
  pub outcome : String
  pub notes : String
  pub created_at : ℕ

unfoldable pub to_review_decision_row : ReviewDecision → ReviewDecisionRow
to_review_decision_row review_decision = record {
  id = review_decision.id;
  task_revision_id = review_decision.task_revision_id;
  reviewer_id = review_decision.reviewer_id;
  outcome = value_of review_decision.outcome;
  notes = review_decision.notes;
  created_at = review_decision.created_at;
}

unfoldable pub to_domain_review_decision : ReviewDecisionRow → Result ReviewDecision
to_domain_review_decision row = do
  outcome ← read_member row.outcome
  reconstruct (λ _. true)
      (record {
        id = row.id;
        task_revision_id = row.task_revision_id;
        reviewer_id = row.reviewer_id;
        outcome = outcome;
        notes = row.notes;
        created_at = row.created_at;
      })
