-- ===== src/State/WorkPackageSm/Authority.antt =====
-- The single authority model of state/work_package_sm.py.
use ai_engineering_os.Base.{Bool, all, arith, refl, same, true, ◌&&◌, ◌||◌, ◌≡◌}
use ai_engineering_os.Domain.Enums.{
  ActorRole, Initiator, SystemActor, WorkPackageStatus, role, system, actor_role_enum,
  capability_type_enum, evidence_type_enum, feature_status_enum, initiator_enum, plan_status_enum,
  task_status_enum, work_package_status_enum,
}
use ai_engineering_os.State.Machine.{can_transition}
use ai_engineering_os.State.WorkPackageSm.{work_package_state_machine}
use ai_engineering_os.State.Walk.{on_edges_elim}

abbrev by_worker_or_os : WorkPackageStatus → WorkPackageStatus → Initiator → Bool
by_worker_or_os s target i =
    same i (system SystemActor.os)
    || (same s WorkPackageStatus.draft
        && (same target WorkPackageStatus.submitted && same i (role ActorRole.worker)))

-- The only Work Package transition that an actor, rather than the OS, may request is a Worker's
-- submission of a draft.
pub role_only_submits :
    (s target : WorkPackageStatus) (r : ActorRole)
    → can_transition work_package_state_machine s target (role r) ≡ true
    → (s ≡ WorkPackageStatus.draft)
      × (target ≡ WorkPackageStatus.submitted)
      × (r ≡ ActorRole.worker)
unfolding all
role_only_submits s target r h =
    read s target r (on_edges_elim work_package_state_machine by_worker_or_os refl h)
  where
    read :
        (s target : WorkPackageStatus) (r : ActorRole)
        → by_worker_or_os s target (role r) ≡ true
        → (s ≡ WorkPackageStatus.draft)
          × (target ≡ WorkPackageStatus.submitted)
          × (r ≡ ActorRole.worker)
    read s target r checked = ground arith
