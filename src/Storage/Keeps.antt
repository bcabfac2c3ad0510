-- ===== src/Storage/Keeps.antt =====
-- Laws of the calls of storage/unit_of_work.py and storage/repositories: how they compose, and which
-- of them leave alone what is committed.
use ai_engineering_os.Storage.Session.Calls.{at_database-holds, at_database_elim, counted}
use ai_engineering_os.Storage.Session.{
  Action, Session, at_database, done, emit, emit_for_event, for_event, lift, new_id,
  next_sequence_number, notify_payload_limit_bytes, read, applied, utc_now, write, ◌>>=◌,
}
use ai_engineering_os.Storage.Writes.{
  add_audit, add_event, add_report, add_task, save_feature, save_plan, save_task,
}
use ai_engineering_os.Storage.Database.{Database}
use ai_engineering_os.Base.{
  Bool-cases, Error, Result, [], and_then, ap, err, inl, inr, ltb, ok, refl, sym, ◌++◌, ◌∙◌, ◌∷◌,
  ◌≡◌,
}
use ai_engineering_os.Domain.Task.{Task}
use ai_engineering_os.Domain.Feature.{Feature}
use ai_engineering_os.Domain.Plan.{FeaturePlan}
use ai_engineering_os.Domain.Qa.{QaReport}
use ai_engineering_os.Domain.Event.{
  OsEvent, TransitionAuditRecord, event_type_enum, transition_outcome_enum,
}

-- What is committed, and announced, is the same in both sessions.
pub record IsKept (s t : Session) : Type 0 where
  pub durable : t.durable ≡ s.durable
  pub delivered : t.delivered ≡ s.delivered

pub same-IsKept : (s : Session) → IsKept s s
same-IsKept s = record { durable = refl; delivered = refl }

pub IsKept-chain : {s t u : Session} → IsKept s t → IsKept t u → IsKept s u
IsKept-chain k l = record {
  durable = cc (k.durable, l.durable);
  delivered = cc (k.delivered, l.delivered);
}

-- Whatever a call returns or raises, it leaves alone what is committed.
pub record Keeps {Value : Type 0} (call : Action Value) : Type 0 where
  pub kept : (s : Session) → IsKept s (call s).1

-- When the call raises, it has left alone what is committed.
pub record RaisesClean {Value : Type 0} (call : Action Value) : Type 0 where
  pub clean : (s : Session) (e : Error) → (call s).0 ≡ err e → IsKept s (call s).1

module _ {Value Next : Type 0} where
  -- A chain that returned.
  pub chain_elim :
      (call : Action Value) (continue : Value → Action Next) (s : Session) {last : Next}
      → ((call >>= continue) s).0 ≡ ok last
      → (first : Value) × ((call s).0 ≡ ok first)
        × ((continue first (call s).1).0 ≡ ok last)
        × (((call >>= continue) s).1 ≡ (continue first (call s).1).1)
  unfolding ◌>>=◌
  chain_elim call continue s {last} h = go (call s) h
    where
      go :
          (p : Result Value × Session)
          → (and_then p continue).0 ≡ ok last
          → (first : Value) × (p.0 ≡ ok first)
            × ((continue first p.1).0 ≡ ok last)
            × ((and_then p continue).1 ≡ (continue first p.1).1)
      go (err raised, t) k = cc
      go (ok returned, t) k = (returned, refl, k, refl)

  pub chain-Keeps :
      {call : Action Value} {continue : Value → Action Next}
      → Keeps call
      → ((v : Value) → Keeps (continue v))
      → Keeps (call >>= continue)
  unfolding ◌>>=◌
  chain-Keeps {call} {continue} k l = record { kept = λ s. go s (call s) (k.kept s) }
    where
      go :
          (s : Session) (p : Result Value × Session)
          → IsKept s p.1
          → IsKept s (and_then p continue).1
      go s (err raised, t) q = q
      go s (ok returned, t) q = IsKept-chain q ((l returned).kept t)

  pub chain-RaisesClean :
      {call : Action Value} {continue : Value → Action Next}
      → Keeps call
      → ((v : Value) → RaisesClean (continue v))
      → RaisesClean (call >>= continue)
  unfolding ◌>>=◌
  chain-RaisesClean {call} {continue} k l = record { clean = λ s e h. go s e (call s) (k.kept s) h }
    where
      go :
          (s : Session) (e : Error) (p : Result Value × Session)
          → IsKept s p.1
          → (and_then p continue).0 ≡ err e
          → IsKept s (and_then p continue).1
      go s e (err raised, t) q m = q
      go s e (ok returned, t) q m = IsKept-chain q ((l returned).clean t e m)

  -- The same, with what the first call returned.
  pub chain_known-RaisesClean :
      {call : Action Value} {continue : Value → Action Next}
      → Keeps call
      → ((s : Session) (v : Value) → (call s).0 ≡ ok v → RaisesClean (continue v))
      → RaisesClean (call >>= continue)
  unfolding ◌>>=◌
  chain_known-RaisesClean {call} {continue} k l = record {
    clean = λ s e h. go s e (call s) (l s) (k.kept s) h;
  }
    where
      go :
          (s : Session) (e : Error) (p : Result Value × Session)
          → ((v : Value) → p.0 ≡ ok v → RaisesClean (continue v))
          → IsKept s p.1
          → (and_then p continue).0 ≡ err e
          → IsKept s (and_then p continue).1
      go s e (err raised, t) later q m = q
      go s e (ok returned, t) later q m = IsKept-chain q ((later returned refl).clean t e m)

pub Keeps-RaisesClean : {Value : Type 0} {call : Action Value} → Keeps call → RaisesClean call
Keeps-RaisesClean k = record { clean = λ s e h. k.kept s }

pub lift-Keeps : {Value : Type 0} (result : Result Value) → Keeps (lift result)
lift-Keeps result = record { kept = same-IsKept }

pub done-Keeps : {Value : Type 0} (value : Value) → Keeps (done value)
done-Keeps value = record { kept = same-IsKept }

-- A call that keeps what is committed does so whether or not the database answers.
pub at_database-Keeps :
    {Value : Type 0} {call : Action Value} → Keeps call → Keeps (at_database call)
at_database-Keeps {Value} {call} k = record {
  kept = λ s.
      at_database-holds call (λ p. IsKept s p.1) s (record { durable = refl; delivered = refl })
        (record {
          durable = (k.kept (counted s)).durable;
          delivered = (k.kept (counted s)).delivered;
        });
}

pub read-Keeps : {Value : Type 0} (query : Database → Result Value) → Keeps (read query)
read-Keeps query = at_database-Keeps (record { kept = same-IsKept })

-- A query, and what follows it with what the query returned.
pub query-RaisesClean :
    {Value Next : Type 0} {query : Database → Result Value} {continue : Value → Action Next}
    → ((db : Database) (value : Value) → query db ≡ ok value → RaisesClean (continue value))
    → RaisesClean (read query >>= continue)
query-RaisesClean {query} k =
    chain_known-RaisesClean (read-Keeps query)
      (λ s value h. k s.pending value (ap (λ p. p.0) (sym (at_database_elim _ s h)) ∙ h))

pub new_id-Keeps : Keeps new_id
unfolding new_id
new_id-Keeps = record { kept = λ s. record { durable = refl; delivered = refl } }

pub utc_now-Keeps : Keeps utc_now
unfolding utc_now
utc_now-Keeps = record { kept = λ s. record { durable = refl; delivered = refl } }

pub next_sequence_number-Keeps : Keeps next_sequence_number
unfolding next_sequence_number
next_sequence_number-Keeps = record { kept = λ s. record { durable = refl; delivered = refl } }

pub write-Keeps : (change : Database → Result Database) → Keeps (write change)
unfolding write applied
write-Keeps change = at_database-Keeps (record { kept = λ s. staged s (change s.pending) refl })
  where
    staged :
        (s : Session) (r : Result Database) → change s.pending ≡ r → IsKept s (applied change s).1
    staged s (err raised) e = rw e (same-IsKept s)
    staged s (ok db) e = rw e (record { durable = refl; delivered = refl })

pub emit_for_event-Keeps : (event : OsEvent) → Keeps (emit_for_event event)
unfolding emit_for_event emit
emit_for_event-Keeps event = record { kept = λ s. go s }
  where
    queue : Action (Unit {0})
    queue t = (ok tt, record t { queued = t.queued ++ for_event event ∷ [] })

    queue-Keeps : Keeps queue
    queue-Keeps = record { kept = λ s. record { durable = refl; delivered = refl } }

    go : (s : Session) → IsKept s (emit_for_event event s).1
    go s =
        elim (Bool-cases
          (ltb notify_payload_limit_bytes (s.outside.payload_bytes (for_event event)))) [
            | inl h ↦ rw h (same-IsKept s)
            | inr h ↦ rw h ((at_database-Keeps queue-Keeps).kept s)
          ]

pub save_task-Keeps : (task : Task) → Keeps (save_task task)
unfolding save_task
save_task-Keeps task = write-Keeps _

pub add_task-Keeps : (task : Task) → Keeps (add_task task)
unfolding add_task
add_task-Keeps task = write-Keeps _

pub save_feature-Keeps : (feature : Feature) → Keeps (save_feature feature)
unfolding save_feature
save_feature-Keeps feature = write-Keeps _

pub save_plan-Keeps : (plan : FeaturePlan) → Keeps (save_plan plan)
unfolding save_plan
save_plan-Keeps plan = write-Keeps _

pub add_report-Keeps : (report : QaReport) → Keeps (add_report report)
unfolding add_report
add_report-Keeps report = write-Keeps _

pub add_event-Keeps : (event : OsEvent) → Keeps (add_event event)
unfolding add_event
add_event-Keeps event =
    chain-Keeps next_sequence_number-Keeps (λ n. chain-Keeps (write-Keeps _) (λ _. done-Keeps _))

pub add_audit-Keeps : (audit : TransitionAuditRecord) → Keeps (add_audit audit)
unfolding add_audit
add_audit-Keeps audit =
    chain-Keeps next_sequence_number-Keeps (λ n. chain-Keeps (write-Keeps _) (λ _. done-Keeps _))
