-- ===== src/Domain/Enums/Kinds.antt =====
-- The classifications of domain/enums.py.
use ai_engineering_os.Base.{ℕ, String, ◌≡◌, refl, some, List, [], ◌∷◌, get_elem?, StrEnum}

pub data CapabilityType : Type 0 where
  backend frontend qa : CapabilityType

abbrev capability_type_members : List CapabilityType
capability_type_members = CapabilityType.backend ∷ CapabilityType.frontend ∷ CapabilityType.qa ∷ []

abbrev capability_type_index : CapabilityType → ℕ
capability_type_index CapabilityType.backend = 0
capability_type_index CapabilityType.frontend = 1
capability_type_index CapabilityType.qa = 2

abbrev capability_type_label : CapabilityType → String
capability_type_label CapabilityType.backend = "BACKEND"
capability_type_label CapabilityType.frontend = "FRONTEND"
capability_type_label CapabilityType.qa = "QA"

pub capability_type_index_members :
    (a : CapabilityType) → get_elem? capability_type_members (capability_type_index a) ≡ some a
capability_type_index_members CapabilityType.backend = refl
capability_type_index_members CapabilityType.frontend = refl
capability_type_index_members CapabilityType.qa = refl

instance abbrev pub capability_type_enum : StrEnum CapabilityType
capability_type_enum = record {
  members = capability_type_members;
  index = capability_type_index;
  label = capability_type_label;
  index_members = capability_type_index_members;
}

pub data EvidenceType : Type 0 where
  git_diff test_output api_response build_log db_verification reasoning : EvidenceType

abbrev evidence_type_members : List EvidenceType
evidence_type_members =
    EvidenceType.git_diff ∷ EvidenceType.test_output ∷ EvidenceType.api_response
    ∷ EvidenceType.build_log ∷ EvidenceType.db_verification ∷ EvidenceType.reasoning ∷ []

abbrev evidence_type_index : EvidenceType → ℕ
evidence_type_index EvidenceType.git_diff = 0
evidence_type_index EvidenceType.test_output = 1
evidence_type_index EvidenceType.api_response = 2
evidence_type_index EvidenceType.build_log = 3
evidence_type_index EvidenceType.db_verification = 4
evidence_type_index EvidenceType.reasoning = 5

abbrev evidence_type_label : EvidenceType → String
evidence_type_label EvidenceType.git_diff = "GIT_DIFF"
evidence_type_label EvidenceType.test_output = "TEST_OUTPUT"
evidence_type_label EvidenceType.api_response = "API_RESPONSE"
evidence_type_label EvidenceType.build_log = "BUILD_LOG"
evidence_type_label EvidenceType.db_verification = "DB_VERIFICATION"
evidence_type_label EvidenceType.reasoning = "REASONING"

pub evidence_type_index_members :
    (a : EvidenceType) → get_elem? evidence_type_members (evidence_type_index a) ≡ some a
evidence_type_index_members EvidenceType.git_diff = refl
evidence_type_index_members EvidenceType.test_output = refl
evidence_type_index_members EvidenceType.api_response = refl
evidence_type_index_members EvidenceType.build_log = refl
evidence_type_index_members EvidenceType.db_verification = refl
evidence_type_index_members EvidenceType.reasoning = refl

instance abbrev pub evidence_type_enum : StrEnum EvidenceType
evidence_type_enum = record {
  members = evidence_type_members;
  index = evidence_type_index;
  label = evidence_type_label;
  index_members = evidence_type_index_members;
}

pub data EvidenceSourceType : Type 0 where
  system worker : EvidenceSourceType

pub data DefectStatus : Type 0 where
  opened resolved : DefectStatus

pub data QaStatus : Type 0 where
  passed failed blocked : QaStatus

abbrev qa_status_members : List QaStatus
qa_status_members = QaStatus.passed ∷ QaStatus.failed ∷ QaStatus.blocked ∷ []

abbrev qa_status_index : QaStatus → ℕ
qa_status_index QaStatus.passed = 0
qa_status_index QaStatus.failed = 1
qa_status_index QaStatus.blocked = 2

abbrev qa_status_label : QaStatus → String
qa_status_label QaStatus.passed = "PASSED"
qa_status_label QaStatus.failed = "FAILED"
qa_status_label QaStatus.blocked = "BLOCKED"

pub qa_status_index_members :
    (a : QaStatus) → get_elem? qa_status_members (qa_status_index a) ≡ some a
qa_status_index_members QaStatus.passed = refl
qa_status_index_members QaStatus.failed = refl
qa_status_index_members QaStatus.blocked = refl

instance abbrev pub qa_status_enum : StrEnum QaStatus
qa_status_enum = record {
  members = qa_status_members;
  index = qa_status_index;
  label = qa_status_label;
  index_members = qa_status_index_members;
}

pub data ReviewOutcome : Type 0 where
  approved changes_requested : ReviewOutcome

abbrev review_outcome_members : List ReviewOutcome
review_outcome_members = ReviewOutcome.approved ∷ ReviewOutcome.changes_requested ∷ []

abbrev review_outcome_index : ReviewOutcome → ℕ
review_outcome_index ReviewOutcome.approved = 0
review_outcome_index ReviewOutcome.changes_requested = 1

abbrev review_outcome_label : ReviewOutcome → String
review_outcome_label ReviewOutcome.approved = "APPROVED"
review_outcome_label ReviewOutcome.changes_requested = "CHANGES_REQUESTED"

pub review_outcome_index_members :
    (a : ReviewOutcome) → get_elem? review_outcome_members (review_outcome_index a) ≡ some a
review_outcome_index_members ReviewOutcome.approved = refl
review_outcome_index_members ReviewOutcome.changes_requested = refl

instance abbrev pub review_outcome_enum : StrEnum ReviewOutcome
review_outcome_enum = record {
  members = review_outcome_members;
  index = review_outcome_index;
  label = review_outcome_label;
  index_members = review_outcome_index_members;
}

abbrev evidence_source_type_members : List EvidenceSourceType
evidence_source_type_members = EvidenceSourceType.system ∷ EvidenceSourceType.worker ∷ []

abbrev evidence_source_type_index : EvidenceSourceType → ℕ
evidence_source_type_index EvidenceSourceType.system = 0
evidence_source_type_index EvidenceSourceType.worker = 1

abbrev evidence_source_type_label : EvidenceSourceType → String
evidence_source_type_label EvidenceSourceType.system = "SYSTEM"
evidence_source_type_label EvidenceSourceType.worker = "WORKER"

pub evidence_source_type_index_members :
    (a : EvidenceSourceType)
    → get_elem? evidence_source_type_members (evidence_source_type_index a) ≡ some a
evidence_source_type_index_members EvidenceSourceType.system = refl
evidence_source_type_index_members EvidenceSourceType.worker = refl

instance abbrev pub evidence_source_type_enum : StrEnum EvidenceSourceType
evidence_source_type_enum = record {
  members = evidence_source_type_members;
  index = evidence_source_type_index;
  label = evidence_source_type_label;
  index_members = evidence_source_type_index_members;
}

abbrev defect_status_members : List DefectStatus
defect_status_members = DefectStatus.opened ∷ DefectStatus.resolved ∷ []

abbrev defect_status_index : DefectStatus → ℕ
defect_status_index DefectStatus.opened = 0
defect_status_index DefectStatus.resolved = 1

abbrev defect_status_label : DefectStatus → String
defect_status_label DefectStatus.opened = "OPEN"
defect_status_label DefectStatus.resolved = "RESOLVED"

pub defect_status_index_members :
    (a : DefectStatus) → get_elem? defect_status_members (defect_status_index a) ≡ some a
defect_status_index_members DefectStatus.opened = refl
defect_status_index_members DefectStatus.resolved = refl

instance abbrev pub defect_status_enum : StrEnum DefectStatus
defect_status_enum = record {
  members = defect_status_members;
  index = defect_status_index;
  label = defect_status_label;
  index_members = defect_status_index_members;
}
