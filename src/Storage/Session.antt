-- ===== src/Storage/Session.antt =====
-- storage/unit_of_work.py: one session for each transaction. The session keeps what is committed
-- (`durable`), what the transaction sees (`pending`), and the notifications that wait for the commit.
-- What the code takes from outside (`uuid4`, the clock, identity columns, the size of a JSON text,
-- which calls the database answers) is `outside`, with the numbers of draws and of calls made. Other
-- transactions are not interleaved. A call that the database does not answer has changed nothing.
pub mod Calls
use ai_engineering_os.Storage.Database.{Database}
use ai_engineering_os.Domain.Event.{OsEvent, event_type_enum, transition_outcome_enum}
use ai_engineering_os.Base.{
  Bool, Error, List, Result, String, [], and_then, err, if◌then◌else◌, ltb, ok, ℕ, ◌++◌, ◌+◌, ◌∷◌,
}

-- `NotificationEnvelope`
pub record NotificationEnvelope : Type 0 where
  pub event_id : ℕ
  pub aggregate_type : String
  pub aggregate_id : ℕ

unfoldable pub for_event : OsEvent → NotificationEnvelope
for_event event = record {
  event_id = event.id;
  aggregate_type = event.aggregate_type;
  aggregate_id = event.aggregate_id;
}

pub record Outside : Type 0 where
  pub uuid : ℕ → ℕ
  pub clock : ℕ → ℕ
  pub identity : ℕ → ℕ
  pub payload_bytes : NotificationEnvelope → ℕ
  pub answers : ℕ → Bool

pub record Session : Type 0 where
  pub outside : Outside
  pub draws : ℕ
  pub calls : ℕ
  pub durable : Database
  pub pending : Database
  pub queued : List NotificationEnvelope
  pub delivered : List NotificationEnvelope

-- A call that may use the session, and may raise.
abbrev pub Action : Type 0 → Type 0
Action Value = Session → Result Value × Session

-- It stays shut in proofs, so that a chain of calls is read as one.
unfoldable pub ◌>>=◌ : {Value Next : Type 0} → Action Value → (Value → Action Next) → Action Next
(call >>= continue) s = and_then (call s) continue

infixl 5 ◌>>=◌
abbrev pub ◌>>◌ : {Next : Type 0} → Action (Unit {0}) → Action Next → Action Next
call >> next = call >>= λ _. next

infixl 5 ◌>>◌
abbrev pub done : {Value : Type 0} → Value → Action Value
done value s = (ok value, s)

-- A call that neither reads nor writes the session.
abbrev pub lift : {Value : Type 0} → Result Value → Action Value
lift result s = (result, s)

-- A call at the database. SQLAlchemy's exceptions reach the caller as `PersistenceError`.
unfoldable pub at_database : {Value : Type 0} → Action Value → Action Value
at_database call s =
    if s.outside.answers s.calls
    then call (record s { calls = s.calls + 1 })
    else (err Error.persistence, record s { calls = s.calls + 1 })

abbrev pub read : {Value : Type 0} → (Database → Result Value) → Action Value
read query = at_database (λ s. (query s.pending, s))

abbrev draw : (Outside → ℕ → ℕ) → Action ℕ
draw source s = (ok (source s.outside s.draws), record s { draws = s.draws + 1 })

-- `new_id`, `utc_now`, and the value of a `GENERATED ALWAYS AS IDENTITY` column.
unfoldable pub new_id : Action ℕ
new_id = draw (λ o. o.uuid)

unfoldable pub utc_now : Action ℕ
utc_now = draw (λ o. o.clock)

unfoldable pub next_sequence_number : Action ℕ
next_sequence_number = draw (λ o. o.identity)

-- The pending database after a change of it that the constraints accept.
unfoldable pub applied : (Database → Result Database) → Action (Unit {0})
applied change s = staged (change s.pending)
  where
    staged : Result Database → Result (Unit {0}) × Session
    staged (err raised) = (err raised, s)
    staged (ok db) = (ok tt, record s { pending = db })

-- A staged write and its `flush`.
unfoldable pub write : (Database → Result Database) → Action (Unit {0})
write change = at_database (applied change)

-- `UnitOfWork.commit`: what is staged becomes durable, and PostgreSQL delivers the queued
-- notifications.
unfoldable pub commit : Action (Unit {0})
commit = at_database (λ s.
    (ok tt, record s { durable = s.pending; queued = []; delivered = s.delivered ++ s.queued }))

-- `UnitOfWork.rollback`, which is also how a transaction ends that has not committed.
unfoldable pub rollback : Session → Session
rollback s = record s { pending = s.durable; queued = [] }

abbrev pub notify_payload_limit_bytes : ℕ
notify_payload_limit_bytes = 8000

-- `emit`: the notification waits for the commit.
unfoldable pub emit : NotificationEnvelope → Action (Unit {0})
emit envelope s =
    if ltb notify_payload_limit_bytes (s.outside.payload_bytes envelope)
    then (err Error.value_error, s)
    else at_database (λ t. (ok tt, record t { queued = t.queued ++ envelope ∷ [] })) s

unfoldable pub emit_for_event : OsEvent → Action (Unit {0})
emit_for_event event = emit (for_event event)
