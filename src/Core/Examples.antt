-- ===== src/Core/Examples.antt =====
-- Runs of core at a concrete database: a Worker, a Reviewer and a Coordinator, one Feature with one
-- READY Task.
use ai_engineering_os.Storage.Session.{
  Session, at_database, commit, emit, emit_for_event, for_event, new_id, next_sequence_number,
  applied, utc_now, write, ◌>>=◌,
}
use ai_engineering_os.Storage.Writes.{
  add_audit, add_event, added_audit, added_event, insert_row, is_recorded, save_task,
}
use ai_engineering_os.Storage.Keeps.{IsKept}
use ai_engineering_os.Storage.Database.{Database, get_task, require_row}
use ai_engineering_os.Base.{
  Error, List, Memᴰ, [], any, false, is_empty, is_ok, ltb, none, refl, some, sorted, sym, true, ℕ,
  ◌+◌, ◌∙◌, ◌∷◌, ◌≡◌,
}
use ai_engineering_os.Domain.Enums.{
  ActorRole, CapabilityType, TaskStatus, role, actor_role_enum, capability_type_enum,
  decision_scope_enum, defect_status_enum, evidence_source_type_enum, evidence_type_enum,
  feature_status_enum, initiator_enum, plan_status_enum, qa_status_enum, review_outcome_enum,
  task_status_enum, work_package_status_enum,
}
use ai_engineering_os.Domain.Actor.{Actor, can_review}
use ai_engineering_os.Domain.Task.{Task, is_valid_task, routed_to_reviewer, validated}
use ai_engineering_os.Domain.Event.{
  EventType, TransitionOutcome, attribution_is_valid, refusal_records_why, validated_audit,
  validated_event, event_type_enum, transition_outcome_enum,
}
use ai_engineering_os.Rules.Context.{RuleContext}
use ai_engineering_os.Rules.Results.{Finding}
use ai_engineering_os.Rules.Authority.{reviewer_finding}
use ai_engineering_os.State.Machine.{
  TransitionEvaluation, allowed_targets, definition, evaluate, evaluate_edge, is_terminal,
}
use ai_engineering_os.State.TaskSm.{task_state_machine}
use ai_engineering_os.Core.Rendering.{merged, rejection_reason, rule_reasons, set_entry}
use ai_engineering_os.Core.Runner.{
  TransitionRequest, TransitionResult, append_audit, append_event, conclude, evaluated,
  event_payload, is_refused, publish, reasons_of, refusal_detail, refuse, run, settle,
}
use ai_engineering_os.Core.Routing.{eligible_reviewers, is_eligible, select_reviewer}
use ai_engineering_os.Core.Requests.{assign_task_request}
use ai_engineering_os.Core.Eligibility.{IdsUnique, select_reviewer-satisfied}
use ai_engineering_os.Core.Outcome.{RunOutcome, run-RunOutcome}
use ai_engineering_os.Core.Durable.{IsAttributable, IsReady, refusal-returned}
use ai_engineering_os.Core.Reasons.{reasons_of-nonempty}
use ai_engineering_os.Core.Kernel.{assign_task}
use ai_engineering_os.Core.Kernel.Calls.{Call, perform, perform-clean, quietly}

abbrev person : ℕ → ActorRole → Actor
person id held = record {
  id = id;
  role = held;
  name = "somebody";
  domain = none;
  is_active = true;
  capabilities = CapabilityType.backend ∷ [];
}

abbrev ready_task : Task
ready_task = record {
  id = 30;
  feature_id = 10;
  feature_plan_id = 20;
  plan_definition_key = "api";
  title = "Build the API";
  capability = CapabilityType.backend;
  status = TaskStatus.ready;
  assigned_worker_id = none;
  reviewer_id = none;
  dependencies = [];
  active_revision_number = 0;
  created_at = 5;
  updated_at = 5;
}

abbrev submitted_task : Task
submitted_task = record ready_task {
  status = TaskStatus.submitted;
  assigned_worker_id = some 1;
  active_revision_number = 1;
}

abbrev world : Session
world = record {
  outside = record {
    uuid = λ n. 100 + n;
    clock = λ n. 1000 + n;
    identity = λ n. n;
    payload_bytes = λ _. 120;
    answers = λ n. ltb n 4;
  };
  draws = 0;
  calls = 0;
  durable = tables;
  pending = tables;
  queued = [];
  delivered = [];
}
  where
    tables : Database
    tables = record {
      actors =
          person 1 ActorRole.worker
          ∷ person 2 ActorRole.reviewer
          ∷ person 3 ActorRole.coordinator
          ∷ [];
      features = [];
      feature_plans = [];
      tasks = ready_task ∷ [];
      task_revisions = [];
      work_packages = [];
      evidence = [];
      qa_reports = [];
      review_decisions = [];
      events = [];
      transition_audit = [];
    }

abbrev no_facts : RuleContext
no_facts = record {
  candidate_worker = none;
  candidate_reviewers = none;
  requesting_actor = none;
  task = none;
  task_revisions = none;
  feature = none;
  feature_tasks = none;
  feature_plans = none;
  referenced_tasks = none;
  work_packages = none;
  review_decisions = none;
  evidence = none;
  qa_reports = none;
}

-- A Worker asks to accept a Task that is READY.
abbrev hasty_request : TransitionRequest TaskStatus
hasty_request = record {
  machine = task_state_machine;
  entity_type = "Task";
  entity_id = 30;
  from_state = TaskStatus.ready;
  to_state = TaskStatus.accepted;
  initiator = role ActorRole.worker;
  initiator_id = some 1;
  context = no_facts;
  apply = save_task (record ready_task { status = TaskStatus.accepted });
  allowed_event_type = EventType.state_transition_allowed;
  payload = [];
}

abbrev hasty_verdict : TransitionEvaluation TaskStatus
hasty_verdict =
    evaluate task_state_machine TaskStatus.ready TaskStatus.accepted (role ActorRole.worker)

abbrev hasty_result : TransitionResult TaskStatus
hasty_result = record {
  is_allowed = false;
  transition = hasty_verdict;
  rules = none;
  audit = record {
    sequence_number = some 2;
    id = 100;
    entity_type = "Task";
    entity_id = 30;
    from_state = "READY";
    attempted_state = "ACCEPTED";
    outcome = TransitionOutcome.rejected;
    requested_by = some 1;
    requested_by_role = role ActorRole.worker;
    reasons = reasons_of hasty_verdict none;
    occurred_at = 1001;
  };
  event = record {
    sequence_number = some 5;
    id = 103;
    event_type = EventType.state_transition_rejected;
    aggregate_type = "Task";
    aggregate_id = 30;
    actor_id = some 1;
    actor_role = role ActorRole.worker;
    payload = event_payload hasty_request (refusal_detail (reasons_of hasty_verdict none));
    occurred_at = 1004;
  };
}

run-RunOutcome_example : RunOutcome hasty_request world (run hasty_request world).1 hasty_result
unfolding run ◌>>=◌ evaluated evaluate is_terminal allowed_targets definition evaluate_edge
    is_refused settle refuse conclude append_audit append_event publish add_audit add_event new_id
    utc_now next_sequence_number write applied at_database added_audit added_event insert_row
    is_recorded any validated_audit validated_event reasons_of rule_reasons rejection_reason
    emit_for_event emit for_event commit attribution_is_valid refusal_records_why event_payload
    merged set_entry
run-RunOutcome_example = run-RunOutcome hasty_request world hasty_result refl

reasons_of-nonempty_example : is_empty (reasons_of hasty_verdict none) ≡ false
unfolding evaluated is_refused evaluate is_terminal definition
reasons_of-nonempty_example = reasons_of-nonempty hasty_request hasty_verdict none refl refl

perform-clean_example : IsKept world (perform (Call.task_assignment 99 1 3) world).1
unfolding perform quietly assign_task assign_task_request ◌>>=◌ at_database get_task require_row
perform-clean_example = perform-clean (Call.task_assignment 99 1 3) world Error.not_found refl

abbrev reviewers : List Actor
reviewers = person 2 ActorRole.reviewer ∷ []

abbrev routed : Task
routed = record submitted_task {
  status = TaskStatus.in_review;
  reviewer_id = some 2;
  updated_at = 9;
}

reviewers_unique : IdsUnique reviewers
reviewers_unique a b (Memᴰ.head p) (Memᴰ.head q) e = λ i. (p ∙ sym q) i
reviewers_unique a b (Memᴰ.head p) (Memᴰ.tail m) e = elim m [ ]
reviewers_unique a b (Memᴰ.tail m) _ e = elim m [ ]

select_reviewer-satisfied_example :
    reviewer_finding routed reviewers [] routed.reviewer_id ≡ Finding.satisfied
unfolding select_reviewer eligible_reviewers is_eligible sorted can_review routed_to_reviewer
    validated is_valid_task
select_reviewer-satisfied_example =
    select_reviewer-satisfied submitted_task reviewers [] (person 2 ActorRole.reviewer) 9 routed
      reviewers_unique refl refl

attributable : IsAttributable hasty_request world
unfolding attribution_is_valid is_recorded any
attributable = record { shape = refl; known = refl }

ready : IsReady hasty_request world
unfolding is_recorded any
ready = record {
  audit_id = refl;
  event_id = refl;
  small = refl;
  records_audit = refl;
  records_event = refl;
  notifies = refl;
  commits = refl;
}

refusal-returned_example : is_ok (run hasty_request world).0 ≡ true
unfolding evaluated is_refused evaluate is_terminal definition
refusal-returned_example =
    refusal-returned hasty_request world hasty_verdict none refl refl attributable ready
