-- ===== src/Storage/Repositories/Frozen.antt =====
-- storage/repositories/work_package_repo.py: a save of a Work Package that has left DRAFT.
use ai_engineering_os.Storage.Repositories.{RowType, update_row}
use ai_engineering_os.Storage.Repositories.Locking.{after_row_elim}
use ai_engineering_os.Domain.WorkPackage.{Claim, VerificationGuide, WorkPackage}
use ai_engineering_os.Storage.Mappers.WorkPackage.{WorkPackageRow, to_work_package_row}
use ai_engineering_os.Base.{
  ==_iff, Bool, Bool-cases, IsApart, List, Memᴰ, Option, String, [], all, ap, arith, eq_iff, filter,
  holds, inl, inr, is_empty, map, none, not, refl, same, some, str_eq, sym, true, ℕ, ◌&&◌, ◌==◌,
  ◌∙◌, ◌∷◌, ◌≡◌, ◌⊎◌,
}
use ai_engineering_os.Storage.Repositories.WorkPackages.{
  Column, claims_equal, content_changes, guides_equal, lists_equal, options_equal,
  work_package_content_columns,
}

lists_equal_elim :
    {A : Type 0} (eq : A → A → Bool)
    → ((x y : A) → eq x y ≡ true → x ≡ y)
    → (xs ys : List A) → lists_equal eq xs ys ≡ true
    → xs ≡ ys
unfolding lists_equal
lists_equal_elim eq one [] [] h = refl
lists_equal_elim eq one [] (y ∷ ys) h = cc
lists_equal_elim eq one (x ∷ xs) [] h = cc
lists_equal_elim eq one (x ∷ xs) (y ∷ ys) h =
    let head = one x y (ground arith) in
    let rest = lists_equal_elim eq one xs ys (ground arith) in cc

options_equal_elim :
    {A : Type 0} (eq : A → A → Bool)
    → ((x y : A) → eq x y ≡ true → x ≡ y)
    → (a b : Option A) → options_equal eq a b ≡ true
    → a ≡ b
unfolding options_equal
options_equal_elim eq one none none h = refl
options_equal_elim eq one none (some y) h = cc
options_equal_elim eq one (some x) none h = cc
options_equal_elim eq one (some x) (some y) h = ap some (one x y h)

texts_equal_elim : (xs ys : List String) → lists_equal str_eq xs ys ≡ true → xs ≡ ys
texts_equal_elim xs ys h = lists_equal_elim str_eq (λ x y e. (eq_iff x y).0 e) xs ys h

claims_equal_elim : (a b : Claim) → claims_equal a b ≡ true → a ≡ b
unfolding claims_equal
claims_equal_elim a b h =
    let id = (==_iff a.id b.id).0 (ground arith) in
    let claim_type = (eq_iff a.claim_type b.claim_type).0 (ground arith) in
    let description = (eq_iff a.description b.description).0 (ground arith) in cc

guides_equal_elim : (a b : VerificationGuide) → guides_equal a b ≡ true → a ≡ b
unfolding guides_equal
guides_equal_elim a b h =
    let steps = texts_equal_elim a.steps b.steps (ground arith) in
    let endpoints = texts_equal_elim a.endpoints b.endpoints (ground arith) in
    let outputs = texts_equal_elim a.expected_outputs b.expected_outputs (ground arith) in cc

-- The recorded content: all columns but the status and the version.
pub record Content : Type 0 where
  pub task_revision_id : ℕ
  pub summary : String
  pub claims : List Claim
  pub verification_guide : Option VerificationGuide
  pub worker_notes : List String
  pub risks : Option String
  pub submitted_at : Option ℕ

abbrev pub content : WorkPackageRow → Content
content row = record {
  task_revision_id = row.task_revision_id;
  summary = row.summary;
  claims = row.claims;
  verification_guide = row.verification_guide;
  worker_notes = row.worker_notes;
  risks = row.risks;
  submitted_at = row.submitted_at;
}

none_fail :
    {A B : Type 0} (f : A → B) (test : A → Bool) (cs : List A)
    → is_empty (map f (filter (λ c. not (test c)) cs)) ≡ true
    → all test cs ≡ true
unfolding filter all
none_fail f test [] h = refl
none_fail f test (c ∷ cs) h = elim (Bool-cases (test c)) [
  | inl holds ↦ let rest = none_fail f test cs (rw holds at h) in rw (holds, rest) refl
  | inr fails ↦ cc (rw fails at h)
]

all_same :
    (candidate row : WorkPackageRow)
    → all (λ (c : Column). c.1 candidate row) work_package_content_columns ≡ true
    → content candidate ≡ content row
unfolding all
all_same candidate row h =
    let revision = (==_iff candidate.task_revision_id row.task_revision_id).0 (ground arith) in
    let summary = (eq_iff candidate.summary row.summary).0 (ground arith) in
    let claims =
      lists_equal_elim claims_equal claims_equal_elim candidate.claims row.claims (ground arith) in
    let guide =
      options_equal_elim guides_equal guides_equal_elim candidate.verification_guide
        row.verification_guide (ground arith) in
    let notes = texts_equal_elim candidate.worker_notes row.worker_notes (ground arith) in
    let risks =
      options_equal_elim str_eq (λ x y e. (eq_iff x y).0 e) candidate.risks row.risks
        (ground arith) in
    let submitted =
      options_equal_elim ◌==◌ (λ x y e. (==_iff x y).0 e) candidate.submitted_at row.submitted_at
        (ground arith) in
    cc

-- Where no content column changes, the content is the one in the row.
pub unchanged_content :
    (work_package : WorkPackage) (row : WorkPackageRow)
    → is_empty (content_changes work_package row) ≡ true
    → content (to_work_package_row work_package) ≡ content row
unfolding content_changes
unchanged_content work_package row h = all_same (to_work_package_row work_package) row (
    none_fail (λ (c : Column). c.0) (λ (c : Column). c.1 (to_work_package_row work_package) row)
      work_package_content_columns h)

module _ {Row : Type 0} (t : RowType Row) where
  pub apart_unique :
      (rows : List Row) {x y : Row}
      → IsApart t.id_of rows
      → Memᴰ x rows
      → Memᴰ y rows
      → t.id_of x ≡ t.id_of y
      → x ≡ y
  apart_unique [] apart m k e = elim m [ ]
  apart_unique (z ∷ zs) apart (Memᴰ.head p) (Memᴰ.head q) e = p ∙ sym q
  apart_unique (z ∷ zs) apart (Memᴰ.head p) (Memᴰ.tail k) e =
      absurd (apart.0 _ k (ap t.id_of (sym p) ∙ e))
  apart_unique (z ∷ zs) apart (Memᴰ.tail m) (Memᴰ.head q) e =
      absurd (apart.0 _ m (ap t.id_of (sym q) ∙ sym e))
  apart_unique (z ∷ zs) apart (Memᴰ.tail m) (Memᴰ.tail k) e = apart_unique zs apart.1 m k e

  -- After an update a row is still there, or it is the one that was updated.
  pub update_row_elim :
      (entity_id version : ℕ) (row : Row) (rows updated : List Row)
      → update_row t entity_id version row rows ≡ some updated
      → (x : Row) → Memᴰ x rows
      → Memᴰ x updated ⊎ ((t.id_of x ≡ entity_id) × (t.version_of x ≡ version) × Memᴰ row updated)
  unfolding update_row
  update_row_elim entity_id version row [] updated h x m = elim m [ ]
  update_row_elim entity_id version row (y ∷ ys) updated h x m =
      elim (Bool-cases (t.id_of y == entity_id && t.version_of y == version)) [
        | inl here ↦ first here (cc (rw here at h)) m
        | inr there ↦
            let (zs, later, same) =
              after_row_elim t y (update_row t entity_id version row ys) (rw there at h) in
            next zs same (update_row_elim entity_id version row ys zs later x) m
      ]
    where
      first :
          (t.id_of y == entity_id && t.version_of y == version) ≡ true
          → updated ≡ row ∷ ys
          → Memᴰ x (y ∷ ys)
          → Memᴰ x updated
            ⊎ ((t.id_of x ≡ entity_id) × (t.version_of x ≡ version) × Memᴰ row updated)
      first here same (Memᴰ.head e) = inr (
        ap t.id_of e ∙ (==_iff (t.id_of y) entity_id).0 (ground arith),
        ap t.version_of e ∙ (==_iff (t.version_of y) version).0 (ground arith),
        rw same (Memᴰ.head refl),
      )
      first here same (Memᴰ.tail k) = inl (rw same (Memᴰ.tail k))

      next :
          (zs : List Row)
          → updated ≡ y ∷ zs
          → (Memᴰ x ys
              → Memᴰ x zs ⊎ ((t.id_of x ≡ entity_id) × (t.version_of x ≡ version) × Memᴰ row zs))
          → Memᴰ x (y ∷ ys)
          → Memᴰ x updated
            ⊎ ((t.id_of x ≡ entity_id) × (t.version_of x ≡ version) × Memᴰ row updated)
      next zs same rest (Memᴰ.head e) = inl (rw same (Memᴰ.head e))
      next zs same rest (Memᴰ.tail k) = elim (rest k) [
        | inl still ↦ inl (rw same (Memᴰ.tail still))
        | inr (id, version', there) ↦ inr (id, version', rw same (Memᴰ.tail there))
      ]
