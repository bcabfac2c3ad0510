-- ===== src/Storage/Appends.antt =====
-- storage/repositories/event_repo.py and transition_audit_repo.py: the two ledgers only grow.
use ai_engineering_os.Storage.Keeps.{chain_elim}
use ai_engineering_os.Storage.Session.Calls.{write_elim}
use ai_engineering_os.Storage.Session.{Session, done, next_sequence_number, write, ◌>>=◌}
use ai_engineering_os.Storage.Writes.{add_audit, add_event, added_audit, added_event, insert_row}
use ai_engineering_os.Storage.Database.{Database}
use ai_engineering_os.Base.{
  Error, Result, [], arith, err, inl, inr, ok, refl, some, sym, ◌++◌, ◌+◌, ◌∷◌, ◌≡◌, ◌⊎◌,
}
use ai_engineering_os.Domain.Event.{
  OsEvent, TransitionAuditRecord, event_type_enum, transition_outcome_enum,
}

-- Whether a change of the database was refused.
pub result_cases :
    {Value : Type 0} (r : Result Value) → ((e : Error) × (r ≡ err e)) ⊎ ((v : Value) × (r ≡ ok v))
result_cases (err e) = inl (e, refl)
result_cases (ok v) = inr (v, refl)

pub added_audit_elim :
    (audit : TransitionAuditRecord) (db : Database) {changed : Database}
    → added_audit audit db ≡ ok changed
    → changed ≡ record db { transition_audit = db.transition_audit ++ audit ∷ [] }
unfolding added_audit insert_row
added_audit_elim audit db {changed} h = ground arith

pub added_event_elim :
    (event : OsEvent) (db : Database) {changed : Database}
    → added_event event db ≡ ok changed
    → changed ≡ record db { events = db.events ++ event ∷ [] }
unfolding added_event insert_row
added_event_elim event db {changed} h = ground arith

-- What `add` of the ledger has done, when it returned.
pub add_audit_elim :
    (audit : TransitionAuditRecord) (s : Session) {recorded : TransitionAuditRecord}
    → (add_audit audit s).0 ≡ ok recorded
    → ((add_audit audit s).1.pending
        ≡ record s.pending { transition_audit = s.pending.transition_audit ++ recorded ∷ [] })
      × ((add_audit audit s).1.queued ≡ s.queued)
      × (recorded ≡ record audit { sequence_number = some (s.outside.identity s.draws) })
unfolding add_audit next_sequence_number ◌>>=◌
add_audit_elim audit s {recorded} h =
    let numbered : TransitionAuditRecord = record audit {
      sequence_number = some (s.outside.identity s.draws);
    } in
    let t : Session = record s { draws = s.draws + 1 } in
    let (u, hw, h2, p2) = chain_elim (write (added_audit numbered)) (λ _. done numbered) t h in
    let (db, accepted, after) = write_elim (added_audit numbered) t hw in
    let r : numbered ≡ recorded = cc h2 in
    let q = added_audit_elim numbered s.pending accepted in rw (p2, after) (rw (← r) q, refl, sym r)

pub add_event_elim :
    (event : OsEvent) (s : Session) {recorded : OsEvent}
    → (add_event event s).0 ≡ ok recorded
    → ((add_event event s).1.pending
        ≡ record s.pending { events = s.pending.events ++ recorded ∷ [] })
      × ((add_event event s).1.queued ≡ s.queued)
      × (recorded ≡ record event { sequence_number = some (s.outside.identity s.draws) })
unfolding add_event next_sequence_number ◌>>=◌
add_event_elim event s {recorded} h =
    let numbered : OsEvent = record event { sequence_number = some (s.outside.identity s.draws) } in
    let t : Session = record s { draws = s.draws + 1 } in
    let (u, hw, h2, p2) = chain_elim (write (added_event numbered)) (λ _. done numbered) t h in
    let (db, accepted, after) = write_elim (added_event numbered) t hw in
    let r : numbered ≡ recorded = cc h2 in
    let q = added_event_elim numbered s.pending accepted in rw (p2, after) (rw (← r) q, refl, sym r)
