-- ===== src/Domain/Enums/Status.antt =====
-- The lifecycle statuses of domain/enums.py.
use ai_engineering_os.Base.{ℕ, String, ◌≡◌, refl, some, List, [], ◌∷◌, get_elem?, StrEnum}

pub data FeatureStatus : Type 0 where
  draft planned in_progress in_validation accepted : FeatureStatus

abbrev feature_status_members : List FeatureStatus
feature_status_members =
    FeatureStatus.draft ∷ FeatureStatus.planned ∷ FeatureStatus.in_progress
    ∷ FeatureStatus.in_validation ∷ FeatureStatus.accepted ∷ []

abbrev feature_status_index : FeatureStatus → ℕ
feature_status_index FeatureStatus.draft = 0
feature_status_index FeatureStatus.planned = 1
feature_status_index FeatureStatus.in_progress = 2
feature_status_index FeatureStatus.in_validation = 3
feature_status_index FeatureStatus.accepted = 4

abbrev feature_status_label : FeatureStatus → String
feature_status_label FeatureStatus.draft = "DRAFT"
feature_status_label FeatureStatus.planned = "PLANNED"
feature_status_label FeatureStatus.in_progress = "IN_PROGRESS"
feature_status_label FeatureStatus.in_validation = "IN_VALIDATION"
feature_status_label FeatureStatus.accepted = "ACCEPTED"

pub feature_status_index_members :
    (a : FeatureStatus) → get_elem? feature_status_members (feature_status_index a) ≡ some a
feature_status_index_members FeatureStatus.draft = refl
feature_status_index_members FeatureStatus.planned = refl
feature_status_index_members FeatureStatus.in_progress = refl
feature_status_index_members FeatureStatus.in_validation = refl
feature_status_index_members FeatureStatus.accepted = refl

instance abbrev pub feature_status_enum : StrEnum FeatureStatus
feature_status_enum = record {
  members = feature_status_members;
  index = feature_status_index;
  label = feature_status_label;
  index_members = feature_status_index_members;
}

pub data PlanStatus : Type 0 where
  draft ready active completed superseded : PlanStatus

abbrev plan_status_members : List PlanStatus
plan_status_members =
    PlanStatus.draft ∷ PlanStatus.ready ∷ PlanStatus.active ∷ PlanStatus.completed
    ∷ PlanStatus.superseded ∷ []

abbrev plan_status_index : PlanStatus → ℕ
plan_status_index PlanStatus.draft = 0
plan_status_index PlanStatus.ready = 1
plan_status_index PlanStatus.active = 2
plan_status_index PlanStatus.completed = 3
plan_status_index PlanStatus.superseded = 4

abbrev plan_status_label : PlanStatus → String
plan_status_label PlanStatus.draft = "DRAFT"
plan_status_label PlanStatus.ready = "READY"
plan_status_label PlanStatus.active = "ACTIVE"
plan_status_label PlanStatus.completed = "COMPLETED"
plan_status_label PlanStatus.superseded = "SUPERSEDED"

pub plan_status_index_members :
    (a : PlanStatus) → get_elem? plan_status_members (plan_status_index a) ≡ some a
plan_status_index_members PlanStatus.draft = refl
plan_status_index_members PlanStatus.ready = refl
plan_status_index_members PlanStatus.active = refl
plan_status_index_members PlanStatus.completed = refl
plan_status_index_members PlanStatus.superseded = refl

instance abbrev pub plan_status_enum : StrEnum PlanStatus
plan_status_enum = record {
  members = plan_status_members;
  index = plan_status_index;
  label = plan_status_label;
  index_members = plan_status_index_members;
}

pub data TaskStatus : Type 0 where
  created pending_dependencies ready assigned in_progress submitted in_review in_qa : TaskStatus
  revision_required accepted : TaskStatus

abbrev task_status_members : List TaskStatus
task_status_members =
    TaskStatus.created ∷ TaskStatus.pending_dependencies ∷ TaskStatus.ready ∷ TaskStatus.assigned
    ∷ TaskStatus.in_progress ∷ TaskStatus.submitted ∷ TaskStatus.in_review ∷ TaskStatus.in_qa
    ∷ TaskStatus.revision_required ∷ TaskStatus.accepted ∷ []

abbrev task_status_index : TaskStatus → ℕ
task_status_index TaskStatus.created = 0
task_status_index TaskStatus.pending_dependencies = 1
task_status_index TaskStatus.ready = 2
task_status_index TaskStatus.assigned = 3
task_status_index TaskStatus.in_progress = 4
task_status_index TaskStatus.submitted = 5
task_status_index TaskStatus.in_review = 6
task_status_index TaskStatus.in_qa = 7
task_status_index TaskStatus.revision_required = 8
task_status_index TaskStatus.accepted = 9

abbrev task_status_label : TaskStatus → String
task_status_label TaskStatus.created = "CREATED"
task_status_label TaskStatus.pending_dependencies = "PENDING_DEPENDENCIES"
task_status_label TaskStatus.ready = "READY"
task_status_label TaskStatus.assigned = "ASSIGNED"
task_status_label TaskStatus.in_progress = "IN_PROGRESS"
task_status_label TaskStatus.submitted = "SUBMITTED"
task_status_label TaskStatus.in_review = "IN_REVIEW"
task_status_label TaskStatus.in_qa = "IN_QA"
task_status_label TaskStatus.revision_required = "REVISION_REQUIRED"
task_status_label TaskStatus.accepted = "ACCEPTED"

pub task_status_index_members :
    (a : TaskStatus) → get_elem? task_status_members (task_status_index a) ≡ some a
task_status_index_members TaskStatus.created = refl
task_status_index_members TaskStatus.pending_dependencies = refl
task_status_index_members TaskStatus.ready = refl
task_status_index_members TaskStatus.assigned = refl
task_status_index_members TaskStatus.in_progress = refl
task_status_index_members TaskStatus.submitted = refl
task_status_index_members TaskStatus.in_review = refl
task_status_index_members TaskStatus.in_qa = refl
task_status_index_members TaskStatus.revision_required = refl
task_status_index_members TaskStatus.accepted = refl

instance abbrev pub task_status_enum : StrEnum TaskStatus
task_status_enum = record {
  members = task_status_members;
  index = task_status_index;
  label = task_status_label;
  index_members = task_status_index_members;
}

pub data WorkPackageStatus : Type 0 where
  draft submitted validated reviewed accepted rejected : WorkPackageStatus

abbrev work_package_status_members : List WorkPackageStatus
work_package_status_members =
    WorkPackageStatus.draft ∷ WorkPackageStatus.submitted ∷ WorkPackageStatus.validated
    ∷ WorkPackageStatus.reviewed ∷ WorkPackageStatus.accepted ∷ WorkPackageStatus.rejected ∷ []

abbrev work_package_status_index : WorkPackageStatus → ℕ
work_package_status_index WorkPackageStatus.draft = 0
work_package_status_index WorkPackageStatus.submitted = 1
work_package_status_index WorkPackageStatus.validated = 2
work_package_status_index WorkPackageStatus.reviewed = 3
work_package_status_index WorkPackageStatus.accepted = 4
work_package_status_index WorkPackageStatus.rejected = 5

abbrev work_package_status_label : WorkPackageStatus → String
work_package_status_label WorkPackageStatus.draft = "DRAFT"
work_package_status_label WorkPackageStatus.submitted = "SUBMITTED"
work_package_status_label WorkPackageStatus.validated = "VALIDATED"
work_package_status_label WorkPackageStatus.reviewed = "REVIEWED"
work_package_status_label WorkPackageStatus.accepted = "ACCEPTED"
work_package_status_label WorkPackageStatus.rejected = "REJECTED"

pub work_package_status_index_members :
    (a : WorkPackageStatus)
    → get_elem? work_package_status_members (work_package_status_index a) ≡ some a
work_package_status_index_members WorkPackageStatus.draft = refl
work_package_status_index_members WorkPackageStatus.submitted = refl
work_package_status_index_members WorkPackageStatus.validated = refl
work_package_status_index_members WorkPackageStatus.reviewed = refl
work_package_status_index_members WorkPackageStatus.accepted = refl
work_package_status_index_members WorkPackageStatus.rejected = refl

instance abbrev pub work_package_status_enum : StrEnum WorkPackageStatus
work_package_status_enum = record {
  members = work_package_status_members;
  index = work_package_status_index;
  label = work_package_status_label;
  index_members = work_package_status_index_members;
}
