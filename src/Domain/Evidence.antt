-- ===== src/Domain/Evidence.antt =====
-- domain/evidence.py. `hashlib.sha256` is not the repository's code: it enters as an argument.
use ai_engineering_os.Base.{
  Bool, Error, Option, Result, String, err, false, if◌then◌else◌, is_some, not, ok, str_eq, true, ℕ,
  ◌&&◌, ◌||◌,
}
use ai_engineering_os.Domain.Enums.{
  EvidenceSourceType, EvidenceType, actor_role_enum, capability_type_enum, evidence_type_enum,
  feature_status_enum, initiator_enum, plan_status_enum, task_status_enum, work_package_status_enum,
}

pub record EvidenceRecord : Type 0 where
  pub id : ℕ
  pub source_type : EvidenceSourceType
  pub evidence_type : EvidenceType
  pub content : String
  pub checksum : String
  pub work_package_id : Option ℕ
  pub qa_report_id : Option ℕ
  pub verified_by_os : Bool
  pub created_at : ℕ

unfoldable pub is_system_source : EvidenceSourceType → Bool
is_system_source EvidenceSourceType.system = true
is_system_source EvidenceSourceType.worker = false

-- `_evidence_must_be_attached` and `_worker_evidence_is_never_os_verified`
unfoldable pub is_valid_evidence : EvidenceRecord → Bool
unfolding is_system_source
is_valid_evidence record_ =
    (is_some record_.work_package_id || is_some record_.qa_report_id)
    && not (not (is_system_source record_.source_type) && record_.verified_by_os)

unfoldable pub is_system_evidence : EvidenceRecord → Bool
unfolding is_system_source
is_system_evidence record_ = is_system_source record_.source_type

unfoldable pub verify_integrity : (String → String) → EvidenceRecord → String → Bool
verify_integrity sha256_hex record_ payload = str_eq (sha256_hex payload) record_.checksum

-- `for_inline_content`, with the fields that its keyword arguments fill.
unfoldable pub for_inline_content :
    (String → String)
    → ℕ
    → EvidenceSourceType
    → EvidenceType
    → String
    → Option ℕ
    → Option ℕ
    → Bool
    → ℕ
    → Result EvidenceRecord
unfolding is_valid_evidence
for_inline_content sha256_hex id source kind content work_package report verified at =
    let made : EvidenceRecord = record {
      id = id;
      source_type = source;
      evidence_type = kind;
      content = content;
      checksum = sha256_hex content;
      work_package_id = work_package;
      qa_report_id = report;
      verified_by_os = verified;
      created_at = at;
    } in
    if is_valid_evidence made then ok made else err Error.validation
