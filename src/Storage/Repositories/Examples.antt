-- ===== src/Storage/Repositories/Examples.antt =====
-- Runs of the repositories over rows.
use ai_engineering_os.Storage.Mappers.{value_of}
use ai_engineering_os.Storage.Repositories.Submitted.{IsCurrent, save-submitted}
use ai_engineering_os.Storage.Repositories.Frozen.{content}
use ai_engineering_os.Storage.Repositories.Refines.{get_by_id-require_row, recorded_tasks, store_of}
use ai_engineering_os.Storage.Repositories.Locking.{save-conflict}
use ai_engineering_os.Base.{
  Bool, Error, IsApart, List, Memᴰ, Result, String, [], any, err, filter, find, no_duplicates,
  no_duplicates-IsApart, none, not, refl, some, str_eq, sym, true, ℕ, ◌||◌, ◌∙◌, ◌∷◌, ◌≡◌, ◌≢◌,
}
use ai_engineering_os.Domain.Enums.{
  CapabilityType, TaskStatus, WorkPackageStatus, actor_role_enum, capability_type_enum,
  decision_scope_enum, defect_status_enum, evidence_source_type_enum, evidence_type_enum,
  feature_status_enum, initiator_enum, plan_status_enum, qa_status_enum, review_outcome_enum,
  task_status_enum, work_package_status_enum,
}
use ai_engineering_os.Domain.Task.{
  Task, assignment_matches_status, dependencies_are_well_formed, is_valid_task,
  pending_has_dependencies, post_submission_has_revision, reviewer_is_not_the_worker,
  routing_matches_status,
}
use ai_engineering_os.Domain.WorkPackage.{WorkPackage}
use ai_engineering_os.Storage.Mappers.Task.{TaskRow, apply_task}
use ai_engineering_os.Storage.Mappers.WorkPackage.{
  WorkPackageRow, apply_work_package, to_work_package_row,
}
use ai_engineering_os.Storage.Repositories.{Rows, get_row, hold, require_row, save_row, update_row}
use ai_engineering_os.Storage.Repositories.Tasks.{TaskRepository, get_by_id, save}
use ai_engineering_os.Storage.Repositories.WorkPackages.{
  claims_equal, content_changes, guides_equal, lists_equal, options_equal, save as save_package,
}
use ai_engineering_os.Storage.Database.{require_row as require_task}

-- A row differs when one of the columns that these runs change does.
abbrev task_differs : TaskRow → TaskRow → Bool
task_differs a b = not (str_eq a.status b.status) || not (str_eq a.title b.title)

abbrev titled : ℕ → String → Task
titled id title = record {
  id = id;
  feature_id = 10;
  feature_plan_id = 20;
  plan_definition_key = "build";
  title = title;
  capability = CapabilityType.backend;
  status = TaskStatus.ready;
  assigned_worker_id = none;
  reviewer_id = none;
  dependencies = [];
  active_revision_number = 0;
  created_at = 1;
  updated_at = 2;
}

abbrev waiting : Task
waiting = record (titled 32 "Test") {
  status = TaskStatus.pending_dependencies;
  dependencies = 40 ∷ 31 ∷ [];
}

abbrev two_tasks : List (Task × ℕ)
two_tasks = (titled 31 "Build", 4) ∷ (waiting, 1) ∷ []

two_tasks_are_valid : (p : Task × ℕ) → Memᴰ p two_tasks → is_valid_task p.0 ≡ true
unfolding is_valid_task dependencies_are_well_formed pending_has_dependencies
    assignment_matches_status routing_matches_status reviewer_is_not_the_worker
    post_submission_has_revision no_duplicates any
two_tasks_are_valid p (Memᴰ.head e) = rw e refl
two_tasks_are_valid p (Memᴰ.tail (Memᴰ.head e)) = rw e refl
two_tasks_are_valid p (Memᴰ.tail (Memᴰ.tail m)) = elim m [ ]

two_tasks-IsApart : IsApart (λ (p : Task × ℕ). p.0.id) two_tasks
unfolding no_duplicates any
two_tasks-IsApart = no_duplicates-IsApart (λ (p : Task × ℕ). p.0.id) two_tasks refl

get_by_id-require_row_example :
    (get_by_id task_differs 32 (store_of two_tasks)).0
    ≡ require_task (λ (x : Task). x.id) 32 (recorded_tasks two_tasks)
get_by_id-require_row_example =
    get_by_id-require_row task_differs two_tasks 32 two_tasks-IsApart two_tasks_are_valid

abbrev build_row : ℕ → String → TaskRow
build_row version title = record {
  id = 31;
  feature_id = 10;
  feature_plan_id = 20;
  plan_definition_key = "build";
  title = title;
  capability = "BACKEND";
  status = "READY";
  assigned_worker_id = none;
  reviewer_id = none;
  active_revision_number = 0;
  created_at = 1;
  updated_at = 2;
  version = version;
}

abbrev repository : TaskRow → TaskRow → TaskRepository
repository in_table held = record {
  rows = record { recorded = in_table ∷ []; loaded = held ∷ [] };
  edges = [];
}

-- By a transaction that read the Task before another changed it.
abbrev late_save : Result (Unit {0}) × TaskRepository
late_save =
    save task_differs (titled 31 "Construct")
      (repository (build_row 5 "Erect") (build_row 4 "Build"))

save-conflict_example :
    (late_save.0 ≡ err Error.concurrency_conflict)
    × (late_save.1.rows.recorded ≡ build_row 5 "Erect" ∷ [])
    × (late_save.1.edges ≡ [])
unfolding find apply_task save require_row get_row save_row update_row hold
save-conflict_example =
    save-conflict task_differs (titled 31 "Erect") (titled 31 "Construct") (build_row 4 "Build")
      (repository (build_row 4 "Build") (build_row 4 "Build"))
      (repository (build_row 5 "Erect") (build_row 4 "Build"))
      (repository (build_row 5 "Erect") (build_row 5 "Erect")) refl refl (λ y m. elim m [ ], tt)
      refl refl refl refl

abbrev package_differs : WorkPackageRow → WorkPackageRow → Bool
package_differs a b = not (str_eq a.status b.status)

abbrev package_row : ℕ → String → WorkPackageRow
package_row version status = record {
  id = 90;
  task_revision_id = 201;
  summary = "Done";
  status = status;
  claims = record { id = 1; claim_type = "BEHAVIOUR"; description = "It builds" } ∷ [];
  verification_guide = none;
  worker_notes = [];
  risks = some "None";
  submitted_at = some 8;
  version = version;
}

abbrev reviewed_package : WorkPackage
reviewed_package = record {
  id = 90;
  task_revision_id = 201;
  summary = "Done";
  status = WorkPackageStatus.reviewed;
  claims = record { id = 1; claim_type = "BEHAVIOUR"; description = "It builds" } ∷ [];
  verification_guide = none;
  worker_notes = [];
  risks = some "None";
  submitted_at = some 8;
}

abbrev package_rows : WorkPackageRow → Rows WorkPackageRow
package_rows row = record { recorded = row ∷ []; loaded = row ∷ [] }

submitted_row-IsCurrent : IsCurrent package_differs (package_rows (package_row 2 "SUBMITTED"))
submitted_row-IsCurrent held x (Memᴰ.head e) (Memᴰ.head f) same_id same_version = f ∙ sym e
submitted_row-IsCurrent held x (Memᴰ.head e) (Memᴰ.tail k) same_id same_version = elim k [ ]
submitted_row-IsCurrent held x (Memᴰ.tail k) there same_id same_version = elim k [ ]

submitted_is_not_draft : (package_row 2 "SUBMITTED").status ≢ value_of WorkPackageStatus.draft
submitted_is_not_draft e = cc

save-submitted_example :
    (y : WorkPackageRow) × Memᴰ y (package_row 3 "REVIEWED" ∷ [])
    × (y.id ≡ 90)
    × (content y ≡ content (package_row 2 "SUBMITTED"))
unfolding save_package find apply_work_package require_row get_row save_row update_row hold
    content_changes to_work_package_row filter lists_equal options_equal claims_equal guides_equal
save-submitted_example =
    save-submitted package_differs reviewed_package (package_rows (package_row 2 "SUBMITTED"))
      (package_rows (package_row 3 "REVIEWED")) (λ y m. elim m [ ], tt) submitted_row-IsCurrent refl
      (package_row 2 "SUBMITTED") (Memᴰ.head refl) submitted_is_not_draft
