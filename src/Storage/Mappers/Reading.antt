-- ===== src/Storage/Mappers/Reading.antt =====
-- storage/mappers: what is written for a value is read back as the value.
use ai_engineering_os.Base.{
  Bool-cases, IsRising, List, Memᴰ, Result, StrEnum, String, [], any_intro, ap, arith, eq_iff, find,
  get_elem?, inl, inr, map, no_duplicates, ok, refl, some, sorted_by, sorted_rising, str_eq, suc,
  sym, true, zero, ℕ, ◌+◌, ◌∷◌, ◌≡◌, ◌≤◌,
}
use ai_engineering_os.Storage.Mappers.{read_all, read_member, read_members, rows_from, value_of}

get_elem-mem : {A : Type 0} (xs : List A) (i : ℕ) {a : A} → get_elem? xs i ≡ some a → Memᴰ a xs
get_elem-mem [] i h = cc
get_elem-mem (x ∷ xs) zero h = Memᴰ.head (cc h)
get_elem-mem (x ∷ xs) (suc i) h = Memᴰ.tail (get_elem-mem xs i h)

module _ {A : Type 0} (label : A → String) where
  find-label :
      (xs : List A) (a : A)
      → no_duplicates str_eq (map label xs) ≡ true
      → Memᴰ a xs
      → find (λ x. str_eq (label x) (label a)) xs ≡ some a
  unfolding find no_duplicates
  find-label [] a apart m = elim m [ ]
  find-label (x ∷ xs) a apart (Memᴰ.head e) =
      let same_label : label x ≡ label a = cc in
      rw ((eq_iff (label x) (label a)).1 same_label) (ap some (sym e))
  find-label (x ∷ xs) a apart (Memᴰ.tail m) =
      let rest = find-label xs a (ground arith) m in
      elim (Bool-cases (str_eq (label x) (label a))) [
        | inl clash ↦ let found = any_intro (str_eq (label x)) (mem-map m) clash in ground arith
        | inr other ↦ rw other rest
      ]
    where
      mem-map : {ys : List A} → Memᴰ a ys → Memᴰ (label a) (map label ys)
      mem-map (Memᴰ.head e) = Memᴰ.head (ap label e)
      mem-map (Memᴰ.tail m) = Memᴰ.tail (mem-map m)

-- With one label for each member, a label is read back as its member.
pub read_member-value :
    {A : Type 0}
    → ⦃e : StrEnum A⦄ → no_duplicates str_eq (map (λ (a : A). value_of a) e.members) ≡ true
    → (a : A) → read_member (value_of a) ≡ ok a
unfolding read_member
read_member-value ⦃e⦄ apart a =
    let found =
      find-label (λ x. value_of x) e.members a apart
        (get_elem-mem e.members (e.index a) (e.index_members a)) in
    rw found refl

pub read_members-value :
    {A : Type 0}
    → ⦃e : StrEnum A⦄ → ((a : A) → read_member (value_of a) ≡ ok a)
    → (xs : List A) → read_members (map (λ (a : A). value_of a) xs) ≡ ok xs
unfolding read_members
read_members-value one [] = refl
read_members-value one (x ∷ xs) = rw (one x, read_members-value one xs) refl

module _ {A Row : Type 0} (to_row : ℕ → A → Row) (position : Row → ℕ)
    (at : (n : ℕ) (x : A) → position (to_row n x) ≡ n) where
  rows_from-low :
      (n : ℕ) (xs : List A) {row : Row} → Memᴰ row (rows_from to_row n xs) → n ≤ position row
  unfolding rows_from
  rows_from-low n [] m = elim m [ ]
  rows_from-low n (x ∷ xs) (Memᴰ.head e) =
      let here = ap position e in let first = at n x in omega arith
  rows_from-low n (x ∷ xs) (Memᴰ.tail m) = let later = rows_from-low (n + 1) xs m in omega arith

  rows_from-IsRising : (n : ℕ) (xs : List A) → IsRising position (rows_from to_row n xs)
  unfolding rows_from
  rows_from-IsRising n [] = tt
  rows_from-IsRising n (x ∷ xs) = (
    λ row m. let later = rows_from-low (n + 1) xs m in let here = at n x in omega arith,
    rows_from-IsRising (n + 1) xs,
  )

  -- The positions say the order of the children, and the rows have it.
  pub sorted-rows_from :
      (n : ℕ) (xs : List A) → sorted_by position (rows_from to_row n xs) ≡ rows_from to_row n xs
  sorted-rows_from n xs = sorted_rising position (rows_from to_row n xs) (rows_from-IsRising n xs)

pub read_all-rows_from :
    {A Row : Type 0} (to_row : ℕ → A → Row) (to_domain : Row → Result A)
    → (n : ℕ) (xs : List A) → ((k : ℕ) (x : A) → Memᴰ x xs → to_domain (to_row k x) ≡ ok x)
    → read_all to_domain (rows_from to_row n xs) ≡ ok xs
unfolding read_all rows_from
read_all-rows_from to_row to_domain n [] one = refl
read_all-rows_from to_row to_domain n (x ∷ xs) one =
    rw
      (
        one n x (Memᴰ.head refl),
        read_all-rows_from to_row to_domain (n + 1) xs (λ k y m. one k y (Memᴰ.tail m)),
      )
      refl
