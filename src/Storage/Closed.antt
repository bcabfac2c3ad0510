-- ===== src/Storage/Closed.antt =====
-- What a property of calls needs for a chain of calls of storage to have it, a commit apart.
use ai_engineering_os.Storage.Database.{Database}
use ai_engineering_os.Domain.Feature.{Feature}
use ai_engineering_os.Domain.Plan.{FeaturePlan}
use ai_engineering_os.Domain.Event.{
  OsEvent, TransitionAuditRecord, event_type_enum, transition_outcome_enum,
}
use ai_engineering_os.Domain.Qa.{QaReport}
use ai_engineering_os.Domain.Task.{Task}
use ai_engineering_os.Storage.Writes.{
  add_audit, add_event, add_report, add_task, save_feature, save_plan, save_task,
}
use ai_engineering_os.Storage.Session.{
  Action, done, emit_for_event, lift, new_id, read, utc_now, ◌>>=◌,
}
use ai_engineering_os.Storage.Keeps.{
  Keeps, add_audit-Keeps, add_event-Keeps, add_report-Keeps, add_task-Keeps, chain-Keeps,
  done-Keeps, emit_for_event-Keeps, lift-Keeps, new_id-Keeps, read-Keeps, save_feature-Keeps,
  save_plan-Keeps, save_task-Keeps, utc_now-Keeps,
}
use ai_engineering_os.Base.{Result, ℕ}

pub record CallLaws (P : (Value : Type 0) → Action Value → Type 0) : Type 1 where
  pub chain :
      {Value Next : Type 0} {call : Action Value} {continue : Value → Action Next}
      → P Value call
      → ((value : Value) → P Next (continue value))
      → P Next (call >>= continue)
  pub returns : {Value : Type 0} (value : Value) → P Value (done value)
  pub lifts : {Value : Type 0} (result : Result Value) → P Value (lift result)
  pub reads : {Value : Type 0} (query : Database → Result Value) → P Value (read query)
  pub draws_id : P ℕ new_id
  pub draws_time : P ℕ utc_now
  pub saves_task : (task : Task) → P (Unit {0}) (save_task task)
  pub adds_task : (task : Task) → P (Unit {0}) (add_task task)
  pub saves_feature : (feature : Feature) → P (Unit {0}) (save_feature feature)
  pub saves_plan : (plan : FeaturePlan) → P (Unit {0}) (save_plan plan)
  pub adds_report : (report : QaReport) → P (Unit {0}) (add_report report)
  pub adds_event : (event : OsEvent) → P OsEvent (add_event event)
  pub adds_audit : (audit : TransitionAuditRecord) → P TransitionAuditRecord (add_audit audit)
  pub emits : (event : OsEvent) → P (Unit {0}) (emit_for_event event)

pub Keeps-CallLaws : CallLaws (λ Value call. Keeps call)
Keeps-CallLaws = record {
  chain = chain-Keeps;
  returns = λ value. done-Keeps value;
  lifts = λ result. lift-Keeps result;
  reads = λ query. read-Keeps query;
  draws_id = new_id-Keeps;
  draws_time = utc_now-Keeps;
  saves_task = save_task-Keeps;
  adds_task = add_task-Keeps;
  saves_feature = save_feature-Keeps;
  saves_plan = save_plan-Keeps;
  adds_report = add_report-Keeps;
  adds_event = add_event-Keeps;
  adds_audit = add_audit-Keeps;
  emits = emit_for_event-Keeps;
}
