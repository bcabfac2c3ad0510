-- ===== src/Storage/Preserves.antt =====
-- storage/unit_of_work.py: what a property of the database needs to outlive every call, a commit
-- included.
use ai_engineering_os.Storage.Session.Calls.{at_database-holds, counted}
use ai_engineering_os.Storage.Database.{Database}
use ai_engineering_os.Domain.Feature.{Feature}
use ai_engineering_os.Domain.Plan.{FeaturePlan}
use ai_engineering_os.Domain.Event.{
  OsEvent, TransitionAuditRecord, event_type_enum, transition_outcome_enum,
}
use ai_engineering_os.Domain.Qa.{QaReport}
use ai_engineering_os.Domain.Task.{Task}
use ai_engineering_os.Storage.Writes.{
  add_audit, add_event, add_report, add_task, added_audit, added_event, added_report, added_task,
  save_feature, save_plan, save_task, saved_feature, saved_plan, saved_task,
}
use ai_engineering_os.Storage.Session.{
  Action, Session, at_database, commit, emit, emit_for_event, for_event, lift, new_id,
  next_sequence_number, notify_payload_limit_bytes, applied, utc_now, write, ◌>>=◌,
}
use ai_engineering_os.Storage.Closed.{CallLaws}
use ai_engineering_os.Base.{
  Bool-cases, Result, [], and_then, err, inl, inr, ltb, ok, refl, ◌++◌, ◌∷◌, ◌≡◌,
}

-- Every write of the kernel keeps the property.
pub record IsInvariant (J : Database → Type 0) : Type 0 where
  pub saves_task : (x : Task) (db after : Database) → J db → saved_task x db ≡ ok after → J after
  pub adds_task : (x : Task) (db after : Database) → J db → added_task x db ≡ ok after → J after
  pub saves_feature :
      (x : Feature) (db after : Database) → J db → saved_feature x db ≡ ok after → J after
  pub saves_plan :
      (x : FeaturePlan) (db after : Database) → J db → saved_plan x db ≡ ok after → J after
  pub adds_report :
      (x : QaReport) (db after : Database) → J db → added_report x db ≡ ok after → J after
  pub adds_event :
      (x : OsEvent) (db after : Database) → J db → added_event x db ≡ ok after → J after
  pub adds_audit :
      (x : TransitionAuditRecord) (db after : Database)
      → J db
      → added_audit x db ≡ ok after
      → J after

module _ (J : Database → Type 0) where
  abbrev pub Holds : Session → Type 0
  Holds s = J s.durable × J s.pending

  -- Whether the call returns or raises.
  pub record Preserves {Value : Type 0} (call : Action Value) : Type 0 where
    pub keeps : (s : Session) → Holds s → Holds (call s).1

  chain-Preserves :
      {Value Next : Type 0} {call : Action Value} {continue : Value → Action Next}
      → Preserves call
      → ((value : Value) → Preserves (continue value))
      → Preserves (call >>= continue)
  unfolding ◌>>=◌
  chain-Preserves {Value} {Next} {call} {continue} k l = record {
    keeps = λ s h. go (call s) (k.keeps s h);
  }
    where
      go : (r : Result Value × Session) → Holds r.1 → Holds (and_then r continue).1
      go (err raised, t) h = h
      go (ok value, t) h = (l value).keeps t h

  same-Preserves : {Value : Type 0} (value : Result Value) → Preserves (lift value)
  same-Preserves value = record { keeps = λ s h. h }

  pub at_database-Preserves :
      {Value : Type 0} {call : Action Value} → Preserves call → Preserves (at_database call)
  at_database-Preserves {Value} {call} k = record {
    keeps = λ s h. at_database-holds call (λ p. Holds p.1) s h (k.keeps (counted s) h);
  }

  write-Preserves :
      (change : Database → Result Database)
      → ((db after : Database) → J db → change db ≡ ok after → J after)
      → Preserves (write change)
  unfolding write applied
  write-Preserves change k =
      at_database-Preserves (record { keeps = λ s h. go s h (change s.pending) refl })
    where
      go :
          (s : Session)
          → Holds s
          → (r : Result Database) → change s.pending ≡ r
          → Holds (applied change s).1
      go s h (err raised) e = rw e h
      go s h (ok db) e = rw e (h.0, k s.pending db h.1 e)

  pub commit-Preserves : Preserves commit
  unfolding commit
  commit-Preserves = at_database-Preserves (record { keeps = λ s h. (h.1, h.1) })

  draw-Preserves : Preserves new_id × Preserves utc_now × Preserves next_sequence_number
  unfolding new_id utc_now next_sequence_number
  draw-Preserves =
      (record { keeps = λ s h. h }, record { keeps = λ s h. h }, record { keeps = λ s h. h })

  emit-Preserves : (event : OsEvent) → Preserves (emit_for_event event)
  unfolding emit_for_event emit
  emit-Preserves event = record { keeps = λ s h. go s h }
    where
      queue : Action (Unit {0})
      queue t = (ok tt, record t { queued = t.queued ++ for_event event ∷ [] })

      queue-Preserves : Preserves queue
      queue-Preserves = record { keeps = λ s h. h }

      go : (s : Session) → Holds s → Holds (emit_for_event event s).1
      go s h =
          elim (Bool-cases
            (ltb notify_payload_limit_bytes (s.outside.payload_bytes (for_event event)))) [
              | inl long ↦ rw long h
              | inr short ↦ rw short ((at_database-Preserves queue-Preserves).keeps s h)
            ]

  pub Preserves-CallLaws : IsInvariant J → CallLaws (λ Value call. Preserves call)
  unfolding save_task add_task save_feature save_plan add_report add_event add_audit
  Preserves-CallLaws inv = record {
    chain = chain-Preserves;
    returns = λ value. same-Preserves (ok value);
    lifts = λ result. same-Preserves result;
    reads = λ query. at_database-Preserves (record { keeps = λ s h. h });
    draws_id = draw-Preserves.0;
    draws_time = draw-Preserves.1;
    saves_task = λ x. write-Preserves _ (inv.saves_task x);
    adds_task = λ x. write-Preserves _ (inv.adds_task x);
    saves_feature = λ x. write-Preserves _ (inv.saves_feature x);
    saves_plan = λ x. write-Preserves _ (inv.saves_plan x);
    adds_report = λ x. write-Preserves _ (inv.adds_report x);
    adds_event = λ x.
        chain-Preserves draw-Preserves.2 (λ n.
          chain-Preserves (write-Preserves _ (inv.adds_event _)) (λ _. same-Preserves (ok _)));
    adds_audit = λ x.
        chain-Preserves draw-Preserves.2 (λ n.
          chain-Preserves (write-Preserves _ (inv.adds_audit _)) (λ _. same-Preserves (ok _)));
    emits = emit-Preserves;
  }
