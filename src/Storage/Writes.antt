-- ===== src/Storage/Writes.antt =====
-- The writes of storage/repositories, with the constraints of storage/models that can refuse them:
-- primary keys, unique columns and foreign keys. The `CHECK` constraints repeat validators of the
-- entities, which only exist when they are valid.
use ai_engineering_os.Domain.Task.Revision.{TaskRevision}
use ai_engineering_os.Storage.Database.{Database}
use ai_engineering_os.Storage.Session.{Action, done, next_sequence_number, write, ◌>>=◌, ◌>>◌}
use ai_engineering_os.Base.{
  Bool, Error, List, Option, Result, [], all, any, err, false, if◌then◌else◌, map, no_duplicates,
  none, not, ok, some, str_eq, true, ℕ, ◌&&◌, ◌++◌, ◌==◌, ◌∷◌,
}
use ai_engineering_os.Domain.Actor.{Actor}
use ai_engineering_os.Domain.Task.{Task}
use ai_engineering_os.Domain.Feature.{Feature}
use ai_engineering_os.Domain.Plan.{FeaturePlan}
use ai_engineering_os.Domain.Qa.{QaDefect, QaReport}
use ai_engineering_os.Domain.Event.{
  OsEvent, TransitionAuditRecord, event_type_enum, transition_outcome_enum,
}

unfoldable pub is_recorded : {Row : Type 0} → (Row → ℕ) → List Row → ℕ → Bool
is_recorded key rows entity_id = any (λ row. key row == entity_id) rows

-- A nullable foreign key.
abbrev pub refers : {Row : Type 0} → (Row → ℕ) → List Row → Option ℕ → Bool
refers key rows none = true
refers key rows (some entity_id) = is_recorded key rows entity_id

-- `INSERT`: the primary key is new.
unfoldable pub insert_row : {Row : Type 0} → (Row → ℕ) → Row → List Row → Result (List Row)
insert_row key row rows =
    if is_recorded key rows (key row) then err Error.integrity_constraint else ok (rows ++ row ∷ [])

-- `_require_row` and `_save_row`: the row with the same key is changed where it stands.
unfoldable pub save_row :
    {Row : Type 0} → (Row → ℕ) → (Row → Row) → ℕ → List Row → Result (List Row)
save_row key change entity_id [] = err Error.not_found
save_row key change entity_id (row ∷ rows) =
    let later = save_row key change entity_id rows in
    if key row == entity_id then ok (change row ∷ rows) else kept row later
  where
    kept : {Row : Type 0} → Row → Result (List Row) → Result (List Row)
    kept row (err raised) = err raised
    kept row (ok rows) = ok (row ∷ rows)

abbrev checked : {Value : Type 0} → Bool → Result Value → Result Value
checked true result = result
checked false result = err Error.integrity_constraint

-- `apply_task`: the dependency edges are fixed at creation.
unfoldable pub apply_task : Task → Task → Task
apply_task task row = record task { dependencies = row.dependencies }

unfoldable pub saved_task : Task → Database → Result Database
saved_task task db = put (save_row (λ (t : Task). t.id) (apply_task task) task.id db.tasks)
  where
    put : Result (List Task) → Result Database
    put (err raised) = err raised
    put (ok tasks) =
        checked
          (refers (λ (a : Actor). a.id) db.actors task.assigned_worker_id
            && refers (λ (a : Actor). a.id) db.actors task.reviewer_id)
          (ok (record db { tasks = tasks }))

-- `TaskRepository.save`
unfoldable pub save_task : Task → Action (Unit {0})
save_task task = write (saved_task task)

unfoldable pub added_task : Task → Database → Result Database
added_task task db =
    checked
      (is_recorded (λ (f : Feature). f.id) db.features task.feature_id
        && (is_recorded (λ (p : FeaturePlan). p.id) db.feature_plans task.feature_plan_id
            && all (is_recorded (λ (t : Task). t.id) db.tasks) task.dependencies))
      (put (insert_row (λ (t : Task). t.id) task db.tasks))
  where
    put : Result (List Task) → Result Database
    put (err raised) = err raised
    put (ok tasks) = ok (record db { tasks = tasks })

-- `TaskRepository.add`
unfoldable pub add_task : Task → Action (Unit {0})
add_task task = write (added_task task)

unfoldable pub saved_feature : Feature → Database → Result Database
saved_feature feature db =
    put (save_row (λ (f : Feature). f.id) (λ _. feature) feature.id db.features)
  where
    put : Result (List Feature) → Result Database
    put (err raised) = err raised
    put (ok features) =
        checked
          (not (
            any (λ (f : Feature). not (f.id == feature.id) && str_eq f.slug feature.slug)
              db.features))
          (ok (record db { features = features }))

-- `FeatureRepository.save`
unfoldable pub save_feature : Feature → Action (Unit {0})
save_feature feature = write (saved_feature feature)

-- `apply_plan`: the Task definitions are not rewritten.
unfoldable pub apply_plan : FeaturePlan → FeaturePlan → FeaturePlan
apply_plan plan row = record plan { task_definitions = row.task_definitions }

unfoldable pub saved_plan : FeaturePlan → Database → Result Database
saved_plan plan db =
    put (save_row (λ (p : FeaturePlan). p.id) (apply_plan plan) plan.id db.feature_plans)
  where
    put : Result (List FeaturePlan) → Result Database
    put (err raised) = err raised
    put (ok plans) = ok (record db { feature_plans = plans })

-- `FeaturePlanRepository.save`
unfoldable pub save_plan : FeaturePlan → Action (Unit {0})
save_plan plan = write (saved_plan plan)

-- The foreign keys of a defect, and its primary key among the defects recorded so far.
unfoldable pub defect_fits : Database → QaDefect → Bool
defect_fits db defect =
    refers (λ (t : Task). t.id) db.tasks defect.scope_task_id
    && (refers (λ (f : Feature). f.id) db.features defect.scope_feature_id
        && not (
            any (λ (r : QaReport). is_recorded (λ (d : QaDefect). d.id) r.defects defect.id)
              db.qa_reports))

unfoldable pub report_fits : Database → QaReport → Bool
report_fits db report =
    is_recorded (λ (f : Feature). f.id) db.features report.feature_id
    && (refers (λ (r : TaskRevision). r.id) db.task_revisions report.task_revision_id
        && (all (defect_fits db) report.defects
            && no_duplicates ◌==◌ (map (λ (d : QaDefect). d.id) report.defects)))

unfoldable pub added_report : QaReport → Database → Result Database
added_report report db =
    checked (report_fits db report) (put (insert_row (λ (r : QaReport). r.id) report db.qa_reports))
  where
    put : Result (List QaReport) → Result Database
    put (err raised) = err raised
    put (ok reports) = ok (record db { qa_reports = reports })

-- `QAReportRepository.add`
unfoldable pub add_report : QaReport → Action (Unit {0})
add_report report = write (added_report report)

unfoldable pub added_event : OsEvent → Database → Result Database
added_event event db =
    checked (refers (λ (a : Actor). a.id) db.actors event.actor_id)
      (put (insert_row (λ (e : OsEvent). e.id) event db.events))
  where
    put : Result (List OsEvent) → Result Database
    put (err raised) = err raised
    put (ok events) = ok (record db { events = events })

-- `EventRepository.add`: the database assigns the sequence number.
unfoldable pub add_event : OsEvent → Action OsEvent
add_event event = do
  sequence_number ← next_sequence_number
  write (added_event (record event { sequence_number = some sequence_number }))
  done (record event { sequence_number = some sequence_number })

unfoldable pub added_audit : TransitionAuditRecord → Database → Result Database
added_audit audit db =
    checked (refers (λ (a : Actor). a.id) db.actors audit.requested_by)
      (put (insert_row (λ (r : TransitionAuditRecord). r.id) audit db.transition_audit))
  where
    put : Result (List TransitionAuditRecord) → Result Database
    put (err raised) = err raised
    put (ok records) = ok (record db { transition_audit = records })

-- `TransitionAuditRepository.add`
unfoldable pub add_audit : TransitionAuditRecord → Action TransitionAuditRecord
add_audit audit = do
  sequence_number ← next_sequence_number
  write (added_audit (record audit { sequence_number = some sequence_number }))
  done (record audit { sequence_number = some sequence_number })
