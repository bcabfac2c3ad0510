-- ===== src/Storage/Session/Calls.antt =====
-- storage/unit_of_work.py: a call at the database is answered or not.
use ai_engineering_os.Storage.Database.{Database}
use ai_engineering_os.Storage.Session.{
  Action, NotificationEnvelope, Session, at_database, commit, emit, notify_payload_limit_bytes,
  applied, write,
}
use ai_engineering_os.Base.{
  Bool-cases, Error, Result, [], err, inl, inr, ltb, ok, refl, ◌++◌, ◌+◌, ◌∷◌, ◌≡◌,
}

abbrev pub counted : Session → Session
counted s = record s { calls = s.calls + 1 }

module _ {Value : Type 0} (call : Action Value) where
  -- Whatever is true of the failure and of the call itself.
  pub at_database-holds :
      (P : Result Value × Session → Type 0) (s : Session)
      → P (err Error.persistence, counted s)
      → P (call (counted s))
      → P (at_database call s)
  unfolding at_database
  at_database-holds P s failed answered = elim (Bool-cases (s.outside.answers s.calls)) [
    | inl answer ↦ rw answer answered
    | inr silence ↦ rw silence failed
  ]

  pub at_database_elim :
      (s : Session) {value : Value}
      → (at_database call s).0 ≡ ok value
      → at_database call s ≡ call (counted s)
  unfolding at_database
  at_database_elim s h = elim (Bool-cases (s.outside.answers s.calls)) [
    | inl answer ↦ rw answer refl
    | inr silence ↦ cc (rw silence at h)
  ]

-- A write that returned.
pub write_elim :
    (change : Database → Result Database) (s : Session) {u : Unit {0}}
    → (write change s).0 ≡ ok u
    → (db : Database) × (change s.pending ≡ ok db)
      × ((write change s).1 ≡ record s { calls = s.calls + 1; pending = db })
unfolding write applied
write_elim change s {u} h =
    let same = at_database_elim (applied change) s h in
    rw same (accepted (change s.pending) refl (rw same at h))
  where
    accepted :
        (r : Result Database)
        → change s.pending ≡ r
        → (applied change (counted s)).0 ≡ ok u
        → (db : Database) × (change s.pending ≡ ok db)
          × ((applied change (counted s)).1 ≡ record s { calls = s.calls + 1; pending = db })
    accepted (err raised) e k = cc (rw e at k)
    accepted (ok db) e k = (db, e, rw e refl)

pub commit_elim :
    (s : Session) {u : Unit {0}}
    → (commit s).0 ≡ ok u
    → (commit s).1 ≡ record s {
      calls = s.calls + 1;
      durable = s.pending;
      queued = [];
      delivered = s.delivered ++ s.queued;
    }
unfolding commit
commit_elim s h = rw (at_database_elim _ s h) refl

-- A notification that was accepted.
pub emit_elim :
    (envelope : NotificationEnvelope) (s : Session) {u : Unit {0}}
    → (emit envelope s).0 ≡ ok u
    → (emit envelope s).1 ≡ record s { calls = s.calls + 1; queued = s.queued ++ envelope ∷ [] }
unfolding emit
emit_elim envelope s {u} h =
    elim (Bool-cases (ltb notify_payload_limit_bytes (s.outside.payload_bytes envelope))) [
      | inl long ↦ cc (rw long at h)
      | inr short ↦ rw short (rw (at_database_elim _ s (rw short at h)) refl)
    ]
