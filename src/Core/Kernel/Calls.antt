-- ===== src/Core/Kernel/Calls.antt =====
-- core/kernel.py: its operations as the calls that a client can make, each in a transaction of its own.
use ai_engineering_os.Storage.Session.{Action, Session}
use ai_engineering_os.Storage.Keeps.{
  IsKept, Keeps, Keeps-RaisesClean, RaisesClean, add_report-Keeps, chain-Keeps, done-Keeps,
  read-Keeps,
}
use ai_engineering_os.Base.{Error, Option, Result, err, ok, ℕ, ◌≡◌}
use ai_engineering_os.Domain.Enums.{
  FeatureStatus, Initiator, TaskStatus, actor_role_enum, capability_type_enum, evidence_type_enum,
  feature_status_enum, initiator_enum, plan_status_enum, qa_status_enum, review_outcome_enum,
  task_status_enum, work_package_status_enum,
}
use ai_engineering_os.Domain.Qa.{QaReport}
use ai_engineering_os.Core.Kernel.{
  activate_plan, assign_task, record_qa_report, return_for_rework, route_for_review,
  transition_feature, transition_task,
}
use ai_engineering_os.Core.Kernel.Clean.{
  activate_plan-RaisesClean, assign_task-RaisesClean, return_for_rework-RaisesClean,
  route_for_review-RaisesClean, transition_feature-RaisesClean, transition_task-RaisesClean,
}

pub data Call : Type 0 where
  task_transition : ℕ → TaskStatus → Initiator → Option ℕ → Option ℕ → Call
  task_assignment : ℕ → ℕ → ℕ → Call
  review_routing : ℕ → Call
  feature_transition : ℕ → FeatureStatus → Initiator → Option ℕ → Call
  rework : ℕ → Initiator → ℕ → Call
  plan_activation : ℕ → ℕ → Call
  report_recording : QaReport → Call

abbrev unit_of : {Value : Type 0} → Result Value → Result (Unit {0})
unit_of (err raised) = err raised
unit_of (ok value) = ok tt

-- The call, without the value that it returns.
unfoldable pub quietly : {Value : Type 0} → Action Value → Action (Unit {0})
quietly call s = (unit_of (call s).0, (call s).1)

unfoldable pub perform : Call → Action (Unit {0})
perform (Call.task_transition t to i a w) = quietly (transition_task t to i a w)
perform (Call.task_assignment t w c) = quietly (assign_task t w c)
perform (Call.review_routing t) = quietly (route_for_review t)
perform (Call.feature_transition f to i a) = quietly (transition_feature f to i a)
perform (Call.rework f i a) = quietly (return_for_rework f i a)
perform (Call.plan_activation p c) = quietly (activate_plan p c)
perform (Call.report_recording report) = quietly (record_qa_report report)

quietly-RaisesClean :
    {Value : Type 0} {call : Action Value} → RaisesClean call → RaisesClean (quietly call)
unfolding quietly
quietly-RaisesClean {Value} {call} k = record { clean = λ s e h. k.clean s e (raised (call s).0 h) }
  where
    raised : {e : Error} (r : Result Value) → unit_of r ≡ err e → r ≡ err e
    raised (err e) h = cc h
    raised (ok v) h = cc h

record_qa_report-Keeps : (report : QaReport) → Keeps (record_qa_report report)
unfolding record_qa_report
record_qa_report-Keeps report =
    chain-Keeps (read-Keeps _) (λ feature. chain-Keeps (add_report-Keeps _) (λ _. done-Keeps _))

perform-RaisesClean : (c : Call) → RaisesClean (perform c)
unfolding perform
perform-RaisesClean (Call.task_transition t to i a w) =
    quietly-RaisesClean (transition_task-RaisesClean t to i a w)
perform-RaisesClean (Call.task_assignment t w c) =
    quietly-RaisesClean (assign_task-RaisesClean t w c)
perform-RaisesClean (Call.review_routing t) = quietly-RaisesClean (route_for_review-RaisesClean t)
perform-RaisesClean (Call.feature_transition f to i a) =
    quietly-RaisesClean (transition_feature-RaisesClean f to i a)
perform-RaisesClean (Call.rework f i a) = quietly-RaisesClean (return_for_rework-RaisesClean f i a)
perform-RaisesClean (Call.plan_activation p c) = quietly-RaisesClean (activate_plan-RaisesClean p c)
perform-RaisesClean (Call.report_recording report) =
    quietly-RaisesClean (Keeps-RaisesClean (record_qa_report-Keeps report))

-- Whatever operation of the kernel raises, and at whatever point, a read, a write, a notification or a
-- commit that the database refuses included, nothing of it is durable and nothing is announced: what
-- was committed, and what was delivered, is as it was before the call.
pub perform-clean :
    (c : Call) (s : Session) (e : Error) → (perform c s).0 ≡ err e → IsKept s (perform c s).1
perform-clean c s e h = (perform-RaisesClean c).clean s e h
