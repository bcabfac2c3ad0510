-- ===== src/Storage/Repositories/Locking.antt =====
-- storage/repositories/base.py: optimistic locking, for two transactions on one Task.
use ai_engineering_os.Domain.Task.{Task}
use ai_engineering_os.Storage.Repositories.Tasks.{TaskRepository, save, task_row_type}
use ai_engineering_os.Storage.Mappers.Task.{TaskRow, apply_task}
use ai_engineering_os.Base.{
  ==_iff, Bool, Bool-cases, Error, IsApart, List, Memᴰ, Option, Result, [], ap, arith, err, false,
  inl, inr, none, ok, refl, same, some, sym, true, ℕ, ◌&&◌, ◌+◌, ◌==◌, ◌∙◌, ◌∷◌, ◌≡◌,
}
use ai_engineering_os.Storage.Repositories.{
  RowType, after_row, get_row, require_row, save_row, update_row, with_id,
}

module _ {Row : Type 0} (t : RowType Row) where
  abbrev matches : ℕ → ℕ → Row → Bool
  matches entity_id version x = t.id_of x == entity_id && t.version_of x == version

  update_row-none :
      (entity_id version : ℕ) (row : Row) (rows : List Row)
      → ((x : Row) → Memᴰ x rows → t.id_of x ≡ entity_id → ⊥)
      → update_row t entity_id version row rows ≡ none
  unfolding update_row
  update_row-none entity_id version row [] other = refl
  update_row-none entity_id version row (x ∷ xs) other =
      let rest = update_row-none entity_id version row xs (λ y m. other y (Memᴰ.tail m)) in
      elim (Bool-cases (t.id_of x == entity_id)) [
        | inl here ↦ absurd (other x (Memᴰ.head refl) ((==_iff (t.id_of x) entity_id).0 here))
        | inr there ↦ rw (there, rest) refl
      ]

  pub after_row_elim :
      (x : Row) (later : Option (List Row)) {rows : List Row}
      → after_row t x later ≡ some rows
      → (ys : List Row) × (later ≡ some ys) × (rows ≡ x ∷ ys)
  after_row_elim x none h = cc
  after_row_elim x (some ys) h = (ys, refl, cc)

  -- After an update, nothing stands under the old version any more.
  update_row-stale :
      (entity_id version : ℕ) (row other : Row) (rows updated : List Row)
      → t.version_of row ≡ version + 1
      → IsApart t.id_of rows
      → update_row t entity_id version row rows ≡ some updated
      → update_row t entity_id version other updated ≡ none
  unfolding update_row
  update_row-stale entity_id version row other [] updated newer apart h = cc
  update_row-stale entity_id version row other (x ∷ xs) updated newer apart h =
      elim (Bool-cases (matches entity_id version x)) [
        | inl here ↦
            let same : updated ≡ row ∷ xs = cc (rw here at h) in
            let its_id : t.id_of x ≡ entity_id = (==_iff (t.id_of x) entity_id).0 (ground arith) in
            let rest =
              update_row-none entity_id version other xs (λ y m e. apart.0 y m (its_id ∙ sym e)) in
            let newer_fails : matches entity_id version row ≡ false = ground arith in
            rw same (rw (newer_fails, rest) refl)
        | inr there ↦
            let (ys, later, same) =
              after_row_elim x (update_row t entity_id version row xs) (rw there at h) in
            rw same (
              rw (there, update_row-stale entity_id version row other xs ys newer apart.1 later)
                refl)
      ]

module _ (differs : TaskRow → TaskRow → Bool) where
  abbrev tasks : RowType TaskRow
  tasks = task_row_type differs

  -- The table after a save that changed something.
  saved_rows :
      (task : Task) (row : TaskRow) (s saved : TaskRepository)
      → with_id tasks task.id s.rows.loaded ≡ some row
      → differs (apply_task task row) row ≡ true
      → save differs task s ≡ (ok tt, saved)
      → update_row tasks row.id row.version
          (record (apply_task task row) { version = row.version + 1 })
          s.rows.recorded
        ≡ some saved.rows.recorded
  unfolding save require_row get_row save_row apply_task
  saved_rows task row s saved held changed h = go (flushed) refl h
    where
      flushed : Option (List TaskRow)
      flushed =
          update_row tasks row.id row.version
            (record (apply_task task row) { version = row.version + 1 }) s.rows.recorded

      go :
          (rows : Option (List TaskRow))
          → flushed ≡ rows
          → save differs task s ≡ (ok tt, saved)
          → flushed ≡ some saved.rows.recorded
      go none e k = cc (rw (held, changed, e) at k)
      go (some rows) e k =
          let same = rw (held, changed, e) at k in
          e ∙ ap (λ (p : Result (Unit {0}) × TaskRepository). some p.1.rows.recorded) same

  conflict :
      (task : Task) (row : TaskRow) (s : TaskRepository)
      → with_id tasks task.id s.rows.loaded ≡ some row
      → differs (apply_task task row) row ≡ true
      → update_row tasks row.id row.version
          (record (apply_task task row) { version = row.version + 1 })
          s.rows.recorded
        ≡ none
      → ((save differs task s).0 ≡ err Error.concurrency_conflict)
        × ((save differs task s).1.rows.recorded ≡ s.rows.recorded)
        × ((save differs task s).1.edges ≡ s.edges)
  unfolding save require_row get_row save_row apply_task
  conflict task row s held changed gone = rw (held, changed, gone) (refl, refl, refl)

  -- Of two transactions that read a Task at one version and each change it, only one can save it: once
  -- one has, a save by the other, which still holds the row as it read it, raises a concurrency
  -- conflict, and leaves the table of Tasks as the first save left it, and the dependency edges as they
  -- were. The identifiers in the table are unique.
  pub save-conflict :
      (first second : Task) (row : TaskRow) (a b saved : TaskRepository)
      → with_id tasks first.id a.rows.loaded ≡ some row
      → with_id tasks second.id b.rows.loaded ≡ some row
      → IsApart (λ (x : TaskRow). x.id) a.rows.recorded
      → differs (apply_task first row) row ≡ true
      → differs (apply_task second row) row ≡ true
      → save differs first a ≡ (ok tt, saved)
      → b.rows.recorded ≡ saved.rows.recorded
      → ((save differs second b).0 ≡ err Error.concurrency_conflict)
        × ((save differs second b).1.rows.recorded ≡ saved.rows.recorded)
        × ((save differs second b).1.edges ≡ b.edges)
  save-conflict first second row a b saved held_a held_b apart changed_a changed_b h now =
      let (refused, table, edges) = refused_save in (refused, table ∙ now, edges)
    where
      refused_save :
          ((save differs second b).0 ≡ err Error.concurrency_conflict)
          × ((save differs second b).1.rows.recorded ≡ b.rows.recorded)
          × ((save differs second b).1.edges ≡ b.edges)
      refused_save = conflict second row b held_b changed_b (
          rw now (
            update_row-stale tasks row.id row.version
              (record (apply_task first row) { version = row.version + 1 })
              (record (apply_task second row) { version = row.version + 1 }) a.rows.recorded
              saved.rows.recorded refl apart (saved_rows first row a saved held_a changed_a h)))
