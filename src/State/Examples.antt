-- ===== src/State/Examples.antt =====
-- Runs of the lifecycle layer (state) at concrete requests.
use ai_engineering_os.Base.{List, [], refl, ◌∷◌, ◌≡◌}
use ai_engineering_os.Domain.Enums.{
  ActorRole, FeatureStatus, SystemActor, TaskStatus, WorkPackageStatus, role, system,
  actor_role_enum, capability_type_enum, evidence_type_enum, feature_status_enum, initiator_enum,
  plan_status_enum, qa_status_enum, review_outcome_enum, task_status_enum, work_package_status_enum,
}
use ai_engineering_os.State.Machine.{
  allowed_targets, can_transition, definition, evaluate, evaluate_edge, is_terminal,
}
use ai_engineering_os.State.Machine.Verdict.{Verdict, evaluate-Verdict}
use ai_engineering_os.State.Machine.Laws.{IsWellFormed, state_machine-IsWellFormed}
use ai_engineering_os.State.TaskSm.{task_state_machine, task_state_machine_lem, task_transitions}
use ai_engineering_os.State.FeatureSm.Walks.{IsDelivered, accepted-IsDelivered}
use ai_engineering_os.State.TaskSm.Walks.{IsVerified, accepted-IsVerified}
use ai_engineering_os.State.WorkPackageSm.Authority.{role_only_submits}
use ai_engineering_os.State.Walk.{Request, walk}

abbrev straight_walk : List (Request TaskStatus)
straight_walk =
    (TaskStatus.ready, system SystemActor.os)
    ∷ (TaskStatus.assigned, role ActorRole.coordinator)
    ∷ (TaskStatus.in_progress, role ActorRole.worker)
    ∷ (TaskStatus.submitted, role ActorRole.worker)
    ∷ (TaskStatus.in_review, system SystemActor.os)
    ∷ (TaskStatus.in_qa, role ActorRole.reviewer)
    ∷ (TaskStatus.accepted, role ActorRole.qa)
    ∷ []

accepted-IsVerified_example : IsVerified straight_walk
unfolding walk can_transition evaluate is_terminal allowed_targets definition evaluate_edge
accepted-IsVerified_example = accepted-IsVerified straight_walk refl

evaluate-Verdict_example :
    Verdict task_state_machine TaskStatus.submitted TaskStatus.in_review (role ActorRole.worker) (
      evaluate task_state_machine TaskStatus.submitted TaskStatus.in_review (role ActorRole.worker))
evaluate-Verdict_example =
    evaluate-Verdict task_state_machine TaskStatus.submitted TaskStatus.in_review
      (role ActorRole.worker)

state_machine-IsWellFormed_example : IsWellFormed task_state_machine task_transitions
state_machine-IsWellFormed_example =
    state_machine-IsWellFormed "Task" TaskStatus.created task_transitions task_state_machine_lem

role_only_submits_example :
    (WorkPackageStatus.draft ≡ WorkPackageStatus.draft)
    × (WorkPackageStatus.submitted ≡ WorkPackageStatus.submitted)
    × (ActorRole.worker ≡ ActorRole.worker)
unfolding can_transition evaluate is_terminal allowed_targets definition evaluate_edge
role_only_submits_example =
    role_only_submits WorkPackageStatus.draft WorkPackageStatus.submitted ActorRole.worker refl

abbrev delivery : List (Request FeatureStatus)
delivery =
    (FeatureStatus.planned, role ActorRole.coordinator)
    ∷ (FeatureStatus.in_progress, role ActorRole.coordinator)
    ∷ (FeatureStatus.in_validation, system SystemActor.os)
    ∷ (FeatureStatus.in_progress, role ActorRole.qa)
    ∷ (FeatureStatus.in_validation, role ActorRole.coordinator)
    ∷ (FeatureStatus.accepted, role ActorRole.coordinator)
    ∷ []

accepted-IsDelivered_example : IsDelivered delivery
unfolding walk can_transition evaluate is_terminal allowed_targets definition evaluate_edge
accepted-IsDelivered_example = accepted-IsDelivered delivery refl
