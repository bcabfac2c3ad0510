-- ===== src/Rules/Evidence/Satisfied.antt =====
-- rules/evidence.py: what a satisfied rule says of the evidence of a Task.
use ai_engineering_os.Base.{
  Bool-cases, List, Memᴰ, Option, elem, elem_iff, filter, filter-eq-nil, inl, inr, is_empty,
  is_empty_elim, map, mem-filter_elim, mem-map_elim, none, not, not_elim, refl, some, true, ◌≡◌,
  ◌⊎◌,
}
use ai_engineering_os.Domain.Enums.{
  EvidenceType, actor_role_enum, capability_type_enum, evidence_type_enum, feature_status_enum,
  initiator_enum, plan_status_enum, qa_status_enum, review_outcome_enum, task_status_enum,
  work_package_status_enum,
}
use ai_engineering_os.Domain.Task.{Task}
use ai_engineering_os.Domain.Evidence.{EvidenceRecord, is_system_evidence}
use ai_engineering_os.Rules.Results.{Finding}
use ai_engineering_os.Rules.Evidence.{
  mandatory_system_evidence, missing_kinds, system_evidence_finding,
}

present :
    (required : List EvidenceType) (records : List EvidenceRecord) {kind : EvidenceType}
    → is_empty (missing_kinds required records) ≡ true
    → Memᴰ kind required
    → (r : EvidenceRecord) × Memᴰ r records × (r.evidence_type ≡ kind)
unfolding missing_kinds
present required records {kind} h m =
    let kinds = map (λ (r : EvidenceRecord). r.evidence_type) records in
    let absent = filter-eq-nil (λ k. not (elem k kinds)) (is_empty_elim _ h) m in
    mem-map_elim (λ (r : EvidenceRecord). r.evidence_type) records
      ((elem_iff kind kinds).0 (not_elim _ absent))

-- When the finding on a Task's evidence is "satisfied", the Task's capability has a standard, and for
-- every kind of evidence that a standard of this capability names there is a supplied record of that
-- kind which comes from the system, not from a Worker's word.
pub system_evidence_complete :
    (task : Task) (evidence : List EvidenceRecord) (kind : EvidenceType)
    → system_evidence_finding task evidence (mandatory_system_evidence task.capability)
      ≡ Finding.satisfied
    → (required : List EvidenceType) × (mandatory_system_evidence task.capability ≡ some required)
      × (¬ Memᴰ kind required
          ⊎ ((r : EvidenceRecord) × Memᴰ r evidence
              × (is_system_evidence r ≡ true)
              × (r.evidence_type ≡ kind)))
unfolding system_evidence_finding
system_evidence_complete task evidence kind h =
    by_standard (mandatory_system_evidence task.capability) refl h
  where
    supplied : List EvidenceRecord
    supplied = filter is_system_evidence evidence

    by_standard :
        (standard : Option (List EvidenceType))
        → mandatory_system_evidence task.capability ≡ standard
        → system_evidence_finding task evidence standard ≡ Finding.satisfied
        → (required : List EvidenceType) × (mandatory_system_evidence task.capability
            ≡ some required)
          × (¬ Memᴰ kind required
              ⊎ ((r : EvidenceRecord) × Memᴰ r evidence
                  × (is_system_evidence r ≡ true)
                  × (r.evidence_type ≡ kind)))
    by_standard none p k = cc k
    by_standard (some required) p k =
        elim (Bool-cases (is_empty (missing_kinds required supplied))) [
          | inr some_missing ↦ cc (rw some_missing at k)
          | inl complete ↦ elim (Bool-cases (elem kind required)) [
            | inr unnamed ↦ (required, p, inl (λ m. cc (unnamed, (elem_iff kind required).1 m)))
            | inl named ↦
                let (r, there, q) =
                  present required supplied complete ((elem_iff kind required).0 named) in
                let (member, trusted) = mem-filter_elim is_system_evidence evidence there in
                (required, p, inr (r, member, trusted, q))
          ]
        ]
