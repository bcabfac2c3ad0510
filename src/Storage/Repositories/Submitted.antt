-- ===== src/Storage/Repositories/Submitted.antt =====
-- storage/repositories/work_package_repo.py: what a save keeps of the Work Packages that left DRAFT.
use mathlib.Core.Path.{subst}
use ai_engineering_os.Domain.Enums.{
  WorkPackageStatus, actor_role_enum, capability_type_enum, decision_scope_enum, defect_status_enum,
  evidence_source_type_enum, evidence_type_enum, feature_status_enum, initiator_enum,
  plan_status_enum, qa_status_enum, review_outcome_enum, task_status_enum, work_package_status_enum,
}
use ai_engineering_os.Events.Listener.{stop}
use ai_engineering_os.Storage.Mappers.{value_of}
use ai_engineering_os.Domain.WorkPackage.{WorkPackage}
use ai_engineering_os.Storage.Mappers.WorkPackage.{
  WorkPackageRow, apply_work_package, to_work_package_row,
}
use ai_engineering_os.Storage.Repositories.Frozen.{
  apart_unique, content, unchanged_content, update_row_elim,
}
use ai_engineering_os.Storage.Repositories.WorkPackages.{
  content_changes, save, work_package_row_type,
}
use ai_engineering_os.Base.{
  Bool, Bool-cases, IsApart, List, Memᴰ, Option, Result, ap, arith, eq_iff, err, false, find-some,
  inl, inr, is_empty, none, not, ok, refl, same, some, str_eq, sym, true, ℕ, ◌&&◌, ◌+◌, ◌==◌, ◌∙◌,
  ◌≡◌, ◌≢◌, ◌⊎◌,
}
use ai_engineering_os.Storage.Repositories.{
  RowType, Rows, get_row, require_row, save_row, track, update_row, with_id,
}

module _ {Row : Type 0} (t : RowType Row) where
  -- The row that `_require_row` returns is held, or it is read from the table.
  Found : ℕ → Rows Row → Result Row × Rows Row → Type 0
  Found entity_id s (err raised, u) = Unit {0}
  Found entity_id s (ok row, u) =
      (u.recorded ≡ s.recorded) × (Memᴰ row s.loaded ⊎ Memᴰ row s.recorded)

  require_row-Found : (entity_id : ℕ) (s : Rows Row) → Found entity_id s (require_row t entity_id s)
  unfolding require_row get_row Found track
  require_row-Found entity_id s = held (with_id t entity_id s.loaded) refl
    where
      known :
          (row : Row)
          → with_id t entity_id s.loaded ≡ none
          → with_id t entity_id s.recorded ≡ some row
          → (before : Option Row) → with_id t (t.id_of row) s.loaded ≡ before
          → Found entity_id s (require_row t entity_id s)
      known row e f none g =
          rw (e, f, g) (refl, inr (find-some (λ x. t.id_of x == entity_id) s.recorded f).0)
      known row e f (some x) g =
          rw (e, f, g) (refl, inr (find-some (λ x. t.id_of x == entity_id) s.recorded f).0)

      read :
          with_id t entity_id s.loaded ≡ none
          → (found : Option Row) → with_id t entity_id s.recorded ≡ found
          → Found entity_id s (require_row t entity_id s)
      read e none f = rw (e, f) tt
      read e (some row) f = known row e f (with_id t (t.id_of row) s.loaded) refl

      held :
          (found : Option Row)
          → with_id t entity_id s.loaded ≡ found
          → Found entity_id s (require_row t entity_id s)
      held none e = read e (with_id t entity_id s.recorded) refl
      held (some row) e = rw e (refl, inl (find-some (λ x. t.id_of x == entity_id) s.loaded e).0)

module _ (differs : WorkPackageRow → WorkPackageRow → Bool) where
  abbrev packages : RowType WorkPackageRow
  packages = work_package_row_type differs

  -- The rows held are those of the table, unless another transaction has written a later version.
  abbrev pub IsCurrent : Rows WorkPackageRow → Type 0
  IsCurrent s =
      (held x : WorkPackageRow)
      → Memᴰ held s.loaded
      → Memᴰ x s.recorded
      → x.id ≡ held.id
      → x.version ≡ held.version
      → x ≡ held

  abbrev Keeps : WorkPackageRow → List WorkPackageRow → Type 0
  Keeps x rows = (y : WorkPackageRow) × Memᴰ y rows × (y.id ≡ x.id) × (content y ≡ content x)

  content-columns :
      (work_package : WorkPackage) (row : WorkPackageRow) (version : ℕ)
      → content (record (apply_work_package work_package row) { version = version })
        ≡ content (to_work_package_row work_package)
  unfolding apply_work_package to_work_package_row
  content-columns work_package row version = refl

  id-columns :
      (work_package : WorkPackage) (row : WorkPackageRow)
      → (apply_work_package work_package row).id ≡ row.id
  unfolding apply_work_package
  id-columns work_package row = refl

  -- What a flush of a changed row leaves of a row of the table.
  save_row-Keeps :
      (work_package : WorkPackage) (row : WorkPackageRow) (u saved : Rows WorkPackageRow)
      → save_row packages row (apply_work_package work_package) u ≡ (ok tt, saved)
      → (x : WorkPackageRow) → Memᴰ x u.recorded
      → (x.id ≡ row.id
          → x.version ≡ row.version
          → content (to_work_package_row work_package) ≡ content x)
      → Keeps x saved.recorded
  unfolding save_row
  save_row-Keeps work_package row u saved h x m same_content =
      elim (Bool-cases (differs (apply_work_package work_package row) row)) [
        | inl changed ↦ flush changed flushed refl
        | inr unchanged ↦
            let same : u ≡ saved =
              ap (λ (p : Result (Unit {0}) × Rows WorkPackageRow). p.1) (rw unchanged at h) in
            (x, subst (λ (r : Rows WorkPackageRow). Memᴰ x r.recorded) same m, refl, refl)
      ]
    where
      after : WorkPackageRow
      after = record (apply_work_package work_package row) { version = row.version + 1 }

      flushed : Option (List WorkPackageRow)
      flushed = update_row packages row.id row.version after u.recorded

      flush :
          differs (apply_work_package work_package row) row ≡ true
          → (rows : Option (List WorkPackageRow)) → flushed ≡ rows
          → Keeps x saved.recorded
      flush changed none e = cc (rw (changed, e) at h)
      flush changed (some rows) e =
          let same : rows ≡ saved.recorded =
            ap (λ (p : Result (Unit {0}) × Rows WorkPackageRow). p.1.recorded)
              (rw (changed, e) at h) in
          elim (update_row_elim packages row.id row.version after u.recorded rows e x m) [
            | inl still ↦ (x, rw (sym same) still, refl, refl)
            | inr (id, version, there) ↦ (
              after,
              rw (sym same) there,
              id-columns work_package row ∙ sym id,
              content-columns work_package row (row.version + 1) ∙ same_content id version,
            )
          ]

  -- A save of a Work Package that returns rewrites no recorded content: of every row of the table
  -- that has left DRAFT, the one that is saved included, the same content stands in the table
  -- afterwards, under the same identifier. The conditions are that identifiers are unique in the
  -- table, and that a row held at the version of the table is the row of the table.
  pub save-submitted :
      (work_package : WorkPackage) (s saved : Rows WorkPackageRow)
      → IsApart (λ (x : WorkPackageRow). x.id) s.recorded
      → IsCurrent s
      → save differs work_package s ≡ (ok tt, saved)
      → (x : WorkPackageRow) → Memᴰ x s.recorded
      → x.status ≢ value_of WorkPackageStatus.draft
      → Keeps x saved.recorded
  unfolding save Found
  save-submitted work_package s saved apart current h x m left =
      go (require_row packages work_package.id s) refl
        (require_row-Found packages work_package.id s)
    where
      go :
          (found : Result WorkPackageRow × Rows WorkPackageRow)
          → require_row packages work_package.id s ≡ found
          → Found packages work_package.id s found
          → Keeps x saved.recorded
      go (err raised, u) e found = cc (rw e at h)
      go (ok row, u) e (same_table, origin) = elim (Bool-cases (refused)) [
        | inl stop ↦ cc (rw (e, stop) at h)
        | inr pass ↦
            save_row-Keeps work_package row u saved (rw (e, pass) at h) x (rw same_table m)
              (λ id version. frozen pass (its_row origin id version))
      ]
        where
          refused : Bool
          refused =
              not (str_eq row.status (value_of WorkPackageStatus.draft))
              && not (is_empty (content_changes work_package row))

          its_row :
              Memᴰ row s.loaded ⊎ Memᴰ row s.recorded
              → x.id ≡ row.id
              → x.version ≡ row.version
              → x ≡ row
          its_row (inl held) id version = current row x held m id version
          its_row (inr there) id version = apart_unique packages s.recorded apart m there id

          frozen :
              refused ≡ false → x ≡ row → content (to_work_package_row work_package) ≡ content x
          frozen pass same =
              elim (Bool-cases (str_eq row.status (value_of WorkPackageStatus.draft))) [
                | inl drafted ↦ absurd (
                    left (
                      ap (λ (r : WorkPackageRow). r.status) same
                      ∙ (eq_iff row.status (value_of WorkPackageStatus.draft)).0 drafted))
                | inr submitted ↦ rw same (unchanged_content work_package row (ground arith))
              ]
