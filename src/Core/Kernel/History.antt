-- ===== src/Core/Kernel/History.antt =====
-- core/kernel.py: any sequence of operations, each in a transaction of its own.
use ai_engineering_os.Domain.Feature.{Feature}
use ai_engineering_os.Storage.Database.{Database}
use ai_engineering_os.Domain.Event.{
  OsEvent, TransitionAuditRecord, event_type_enum, transition_outcome_enum,
}
use ai_engineering_os.Domain.Qa.{QaReport}
use ai_engineering_os.Domain.Task.{Task}
use ai_engineering_os.Storage.Session.{Session, rollback}
use ai_engineering_os.Base.{List, [], ◌++◌, ◌∷◌, ◌≡◌}
use ai_engineering_os.Core.Kernel.Calls.{Call, perform}

-- `async with unit_of_work()`: what the call has not committed when it ends is rolled back.
unfoldable pub transaction : Call → Session → Session
transaction c s = rollback (perform c s).1

unfoldable pub run_all : List Call → Session → Session
run_all [] s = s
run_all (c ∷ cs) s = run_all cs (transaction c s)

-- The ledgers of `after` are those of `before`, with more behind.
pub record Extends (before after : Database) : Type 0 where
  pub more_audit :
      (more : List TransitionAuditRecord) × (after.transition_audit
        ≡ before.transition_audit ++ more)
  pub more_events : (more : List OsEvent) × (after.events ≡ before.events ++ more)
  pub more_reports : (more : List QaReport) × (after.qa_reports ≡ before.qa_reports ++ more)

-- The three ledgers are the same in both.
abbrev SameLedgers : Database → Database → Type 0
SameLedgers db after =
    (after.transition_audit ≡ db.transition_audit)
    × (after.events ≡ db.events)
    × (after.qa_reports ≡ db.qa_reports)
