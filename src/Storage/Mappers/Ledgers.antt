-- ===== src/Storage/Mappers/Ledgers.antt =====
-- storage/mappers: the append-only records, and the Revision history, are read back as recorded.
use ai_engineering_os.Domain.Evidence.{EvidenceRecord, is_valid_evidence}
use ai_engineering_os.Domain.Decision.{ReviewDecision}
use ai_engineering_os.Domain.Task.Revision.{
  TaskRevision, TaskRevisionHistory, is_valid_history, numbered_from,
}
use ai_engineering_os.Storage.Mappers.Revision.{
  TaskRevisionRow, number_of, to_domain_revision, to_domain_revision_history, to_revision_row,
}
use ai_engineering_os.Storage.Mappers.Event.{
  to_domain_event, to_domain_transition_audit, to_event_row, to_transition_audit_row,
}
use ai_engineering_os.Storage.Mappers.Evidence.{to_domain_evidence, to_evidence_row}
use ai_engineering_os.Storage.Mappers.Decision.{to_domain_review_decision, to_review_decision_row}
use ai_engineering_os.Base.{
  ==_iff, IsApart, IsRising, List, Memᴰ, [], ap, arith, leb, map, none, ok, refl, sorted_by-rising,
  true, ℕ, ◌+◌, ◌∷◌, ◌≡◌, ◌≤◌,
}
use ai_engineering_os.Storage.Mappers.{read_all, reconstruct}
use ai_engineering_os.Storage.Mappers.Labels.{
  read_event_type, read_evidence_source_type, read_evidence_type, read_initiator,
  read_review_outcome, read_transition_outcome,
}
use ai_engineering_os.Domain.Event.{
  OsEvent, TransitionAuditRecord, attribution_is_valid, refusal_records_why, event_type_enum,
  transition_outcome_enum,
}

pub to_domain_evidence-to_evidence_row :
    (evidence : EvidenceRecord)
    → is_valid_evidence evidence ≡ true
    → to_domain_evidence (to_evidence_row evidence) ≡ ok evidence
unfolding to_domain_evidence to_evidence_row reconstruct
to_domain_evidence-to_evidence_row evidence valid =
    rw
      (
        read_evidence_source_type evidence.source_type,
        read_evidence_type evidence.evidence_type,
        valid,
      )
      refl

pub to_domain_review_decision-to_review_decision_row :
    (review : ReviewDecision)
    → to_domain_review_decision (to_review_decision_row review) ≡ ok review
unfolding to_domain_review_decision to_review_decision_row reconstruct
to_domain_review_decision-to_review_decision_row review =
    rw (read_review_outcome review.outcome) refl

-- What is read back from an event row, before the database has given it a number.
pub to_domain_event-to_event_row :
    (event : OsEvent)
    → attribution_is_valid event.actor_role event.actor_id ≡ true
    → to_domain_event (to_event_row event) ≡ ok (record event { sequence_number = none })
unfolding to_domain_event to_event_row reconstruct
to_domain_event-to_event_row event valid =
    rw (read_event_type event.event_type, read_initiator event.actor_role, valid) refl

pub to_domain_transition_audit-to_transition_audit_row :
    (audit : TransitionAuditRecord)
    → attribution_is_valid audit.requested_by_role audit.requested_by ≡ true
    → refusal_records_why audit.outcome audit.reasons ≡ true
    → to_domain_transition_audit (to_transition_audit_row audit)
      ≡ ok (record audit { sequence_number = none })
unfolding to_domain_transition_audit to_transition_audit_row reconstruct
to_domain_transition_audit-to_transition_audit_row audit valid why =
    rw (read_transition_outcome audit.outcome, read_initiator audit.requested_by_role, valid, why)
      refl

numbered_from_elim :
    (n : ℕ) (r : TaskRevision) (rs : List TaskRevision)
    → numbered_from n (r ∷ rs) ≡ true
    → (r.revision_number ≡ n) × (numbered_from (n + 1) rs ≡ true)
unfolding numbered_from
numbered_from_elim n r rs h = ((==_iff r.revision_number n).0 (ground arith), ground arith)

numbered_low :
    (n : ℕ) (revisions : List TaskRevision)
    → numbered_from n revisions ≡ true
    → {row : TaskRevisionRow} → Memᴰ row (map to_revision_row revisions)
    → n ≤ number_of row
unfolding to_revision_row
numbered_low n [] h m = elim m [ ]
numbered_low n (r ∷ rs) h (Memᴰ.head e) =
    let here = (numbered_from_elim n r rs h).0 in let same_number = ap number_of e in omega arith
numbered_low n (r ∷ rs) h (Memᴰ.tail m) =
    let later = numbered_low (n + 1) rs (numbered_from_elim n r rs h).1 m in omega arith

numbered-IsRising :
    (n : ℕ) (revisions : List TaskRevision)
    → numbered_from n revisions ≡ true
    → IsRising number_of (map to_revision_row revisions)
unfolding to_revision_row
numbered-IsRising n [] h = tt
numbered-IsRising n (r ∷ rs) h =
    let (here, rest) = numbered_from_elim n r rs h in
    (
      λ row m. let later = numbered_low (n + 1) rs rest m in omega arith,
      numbered-IsRising (n + 1) rs rest,
    )

read_revisions :
    (n : ℕ) (revisions : List TaskRevision)
    → 1 ≤ n
    → numbered_from n revisions ≡ true
    → read_all to_domain_revision (map to_revision_row revisions) ≡ ok revisions
unfolding read_all to_domain_revision to_revision_row reconstruct
read_revisions n [] low h = refl
read_revisions n (r ∷ rs) low h =
    let (here, rest) = numbered_from_elim n r rs h in
    let valid : leb 1 r.revision_number ≡ true = ground arith in
    rw (valid, read_revisions (n + 1) rs (omega arith) rest) refl

-- A Revision history that its validators accept is read back from the rows that are written for its
-- Revisions, in whatever order the rows are supplied: when they are these rows and no others, with no
-- revision number twice, the numbers say the order.
pub to_domain_revision_history-to_revision_row :
    (history : TaskRevisionHistory) (rows : List TaskRevisionRow)
    → is_valid_history history ≡ true
    → IsApart number_of rows
    → ((row : TaskRevisionRow) → Memᴰ row rows → Memᴰ row (map to_revision_row history.revisions))
    → ((row : TaskRevisionRow) → Memᴰ row (map to_revision_row history.revisions) → Memᴰ row rows)
    → to_domain_revision_history history.task_id rows ≡ ok history
unfolding to_domain_revision_history is_valid_history reconstruct
to_domain_revision_history-to_revision_row history rows valid apart there back =
    let numbered : numbered_from 1 history.revisions ≡ true = ground arith in
    let ordered =
      sorted_by-rising number_of rows (map to_revision_row history.revisions) apart
        (numbered-IsRising 1 history.revisions numbered) there back in
    rw (ordered, read_revisions 1 history.revisions (omega arith) numbered, valid) refl
