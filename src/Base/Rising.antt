-- ===== src/Base/Rising.antt =====
-- Sorting by a key that no two elements share.
use mathlib.Core.Path.{◌≡◌, ap, refl, sym, subst}
use mathlib.Core.Logic.{inl, inr}
use mathlib.Core.Bool.{Bool, true, false}
use mathlib.Core.List.{List, [], ◌∷◌, Memᴰ}
use Prim.Native.Nat.{ℕ, ◌<◌}
use native.Mathlib.Omega.{arith}
use ai_engineering_os.Base.Tests.{◌==◌, ==_iff, Bool-cases, if◌then◌else◌, leb}
use ai_engineering_os.Base.Lists.{no_duplicates, any_intro, filter, mem-filter_elim}
use ai_engineering_os.Base.Sorting.{
  insert_mem_elim, insert_sorted, mem-sorted_elim, mem-sorted_intro, sorted, sorted_by,
}

module _ {A : Type 0} (key : A → ℕ) where
  abbrev pub IsAbove : ℕ → List A → Type 0
  IsAbove n xs = (y : A) → Memᴰ y xs → n < key y

  -- Each key is less than all the later ones.
  abbrev pub IsRising : List A → Type 0
  IsRising [] = Unit {0}
  IsRising (x ∷ xs) = IsAbove (key x) xs × IsRising xs

  -- No two elements have one key.
  abbrev pub IsApart : List A → Type 0
  IsApart [] = Unit {0}
  IsApart (x ∷ xs) = ((y : A) → Memᴰ y xs → key x ≡ key y → ⊥) × IsApart xs

  abbrev le : A → A → Bool
  le a b = leb (key a) (key b)

  insert-IsRising :
      (x : A) (ys : List A)
      → ((y : A) → Memᴰ y ys → key x ≡ key y → ⊥)
      → IsRising ys
      → IsRising (insert_sorted le x ys)
  unfolding insert_sorted
  insert-IsRising x [] other rising = (λ y m. elim m [ ], tt)
  insert-IsRising x (y ∷ ys) other rising = elim (Bool-cases (le x y)) [
    | inl before ↦ rw before (λ z m. least before z m, rising)
    | inr after ↦ rw after (
      λ z m. above after z (insert_mem_elim le ys m),
      insert-IsRising x ys (λ z m. other z (Memᴰ.tail m)) rising.1,
    )
  ]
    where
      first : le x y ≡ true → key x < key y
      first before = let differ = other y (Memᴰ.head refl) in ground arith

      least : le x y ≡ true → (z : A) → Memᴰ z (y ∷ ys) → key x < key z
      least before z (Memᴰ.head e) = subst (λ v. key x < key v) (sym e) (first before)
      least before z (Memᴰ.tail m) =
          let low = first before in let high = rising.0 z m in omega arith

      above : le x y ≡ false → (z : A) → Memᴰ z (x ∷ ys) → key y < key z
      above after z (Memᴰ.head e) = subst (λ v. key y < key v) (sym e) (ground arith)
      above after z (Memᴰ.tail m) = rising.0 z m

  pub sorted_by-IsRising : (xs : List A) → IsApart xs → IsRising (sorted_by key xs)
  unfolding sorted
  sorted_by-IsRising [] apart = tt
  sorted_by-IsRising (x ∷ xs) apart =
      insert-IsRising x (sorted_by key xs) (λ y m. apart.0 y (mem-sorted_elim le xs m))
        (sorted_by-IsRising xs apart.1)

  pub filter-IsApart : (p : A → Bool) (xs : List A) → IsApart xs → IsApart (filter p xs)
  unfolding filter
  filter-IsApart p [] apart = tt
  filter-IsApart p (x ∷ xs) apart = elim (Bool-cases (p x)) [
    | inl kept ↦ rw kept (λ y m. apart.0 y (mem-filter_elim p xs m).0, filter-IsApart p xs apart.1)
    | inr dropped ↦ rw dropped (filter-IsApart p xs apart.1)
  ]

  -- A filter may run before the sort or after it.
  insert_below : (x : A) (ys : List A) → IsAbove (key x) ys → insert_sorted le x ys ≡ x ∷ ys
  unfolding insert_sorted
  insert_below x [] low = refl
  insert_below x (y ∷ ys) low =
      let first = low y (Memᴰ.head refl) in
      let before : le x y ≡ true = ground arith in rw before refl

  filter-insert :
      (p : A → Bool) (x : A) (ys : List A)
      → ((y : A) → Memᴰ y ys → key x ≡ key y → ⊥)
      → IsRising ys
      → filter p (insert_sorted le x ys)
        ≡ (if p x then insert_sorted le x (filter p ys) else filter p ys)
  unfolding filter insert_sorted
  filter-insert p x [] other rising = refl
  filter-insert p x (y ∷ ys) other rising = elim (Bool-cases (le x y)) [
    | inl before ↦
        let same : filter p (x ∷ y ∷ ys)
            ≡ (if p x then insert_sorted le x (filter p (y ∷ ys)) else filter p (y ∷ ys)) =
          elim (Bool-cases (p x)) [
            | inl kept ↦ rw kept (
                sym (
                  insert_below x (filter p (y ∷ ys))
                    (λ z m. low before z (mem-filter_elim p (y ∷ ys) m).0)))
            | inr dropped ↦ rw dropped refl
          ] in
        rw before same
    | inr after ↦
        let rest = filter-insert p x ys (λ z m. other z (Memᴰ.tail m)) rising.1 in
        rw (after, rest)
          (elim (Bool-cases (p x)) [
            | inl kept ↦ rw kept (elim (Bool-cases (p y)) [
              | inl keep ↦ rw keep (rw after refl)
              | inr drop ↦ rw drop refl
            ])
            | inr dropped ↦ rw dropped refl
          ])
  ]
    where
      low : le x y ≡ true → (z : A) → Memᴰ z (y ∷ ys) → key x < key z
      low before z (Memᴰ.head e) =
          let differ = other y (Memᴰ.head refl) in subst (λ v. key x < key v) (sym e) (ground arith)
      low before z (Memᴰ.tail m) =
          let differ = other y (Memᴰ.head refl) in let high = rising.0 z m in ground arith

  pub filter-sorted_by :
      (p : A → Bool) (xs : List A)
      → IsApart xs
      → filter p (sorted_by key xs) ≡ sorted_by key (filter p xs)
  unfolding filter sorted
  filter-sorted_by p [] apart = refl
  filter-sorted_by p (x ∷ xs) apart =
      let rest = filter-sorted_by p xs apart.1 in
      let here =
        filter-insert p x (sorted_by key xs) (λ y m. apart.0 y (mem-sorted_elim le xs m))
          (sorted_by-IsRising xs apart.1) in
      rw (here, rest)
        (elim (Bool-cases (p x)) [ inl kept ↦ rw kept refl | inr dropped ↦ rw dropped refl ])

  pub no_duplicates-IsApart :
      (xs : List A) → no_duplicates (λ a b. key a == key b) xs ≡ true → IsApart xs
  unfolding no_duplicates
  no_duplicates-IsApart [] h = tt
  no_duplicates-IsApart (x ∷ xs) h = (λ y m e. clash y m e, no_duplicates-IsApart xs (ground arith))
    where
      clash : (y : A) → Memᴰ y xs → key x ≡ key y → ⊥
      clash y m e =
          let found = any_intro (λ b. key x == key b) m ((==_iff (key x) (key y)).1 e) in
          ground arith

  pub sorted_rising : (xs : List A) → IsRising xs → sorted_by key xs ≡ xs
  unfolding sorted
  sorted_rising [] rising = refl
  sorted_rising (x ∷ xs) rising =
      let rest = sorted_rising xs rising.1 in rw rest (insert_below x xs rising.0)

  -- Two rising lists with the same elements are one list.
  pub rising_ext :
      (xs ys : List A)
      → IsRising xs
      → IsRising ys
      → ((z : A) → Memᴰ z xs → Memᴰ z ys)
      → ((z : A) → Memᴰ z ys → Memᴰ z xs)
      → xs ≡ ys
  rising_ext [] [] rx ry there back = refl
  rising_ext [] (y ∷ ys) rx ry there back = elim (back y (Memᴰ.head refl)) [ ]
  rising_ext (x ∷ xs) [] rx ry there back = elim (there x (Memᴰ.head refl)) [ ]
  rising_ext (x ∷ xs) (y ∷ ys) rx ry there back =
      let same = heads (there x (Memᴰ.head refl)) (back y (Memᴰ.head refl)) in
      let rest =
        rising_ext xs ys rx.1 ry.1 (λ z m. onwards same z m (there z (Memᴰ.tail m)))
          (λ z m. backwards same z m (back z (Memᴰ.tail m))) in
      cc
    where
      heads : Memᴰ x (y ∷ ys) → Memᴰ y (x ∷ xs) → x ≡ y
      heads (Memᴰ.head e) other = e
      heads (Memᴰ.tail m) (Memᴰ.head e) = sym e
      heads (Memᴰ.tail m) (Memᴰ.tail n) =
          let low = ry.0 x m in let high = rx.0 y n in absurd (omega arith)

      onwards : x ≡ y → (z : A) → Memᴰ z xs → Memᴰ z (y ∷ ys) → Memᴰ z ys
      onwards same z m (Memᴰ.head e) =
          let low = rx.0 z m in
          let equal = ap key e in let first = ap key same in absurd (omega arith)
      onwards same z m (Memᴰ.tail n) = n

      backwards : x ≡ y → (z : A) → Memᴰ z ys → Memᴰ z (x ∷ xs) → Memᴰ z xs
      backwards same z m (Memᴰ.head e) =
          let low = ry.0 z m in
          let equal = ap key e in let first = ap key same in absurd (omega arith)
      backwards same z m (Memᴰ.tail n) = n

  -- A list that holds the elements of a rising list, with no key twice, is sorted into it.
  pub sorted_by-rising :
      (xs ys : List A)
      → IsApart xs
      → IsRising ys
      → ((z : A) → Memᴰ z xs → Memᴰ z ys)
      → ((z : A) → Memᴰ z ys → Memᴰ z xs)
      → sorted_by key xs ≡ ys
  sorted_by-rising xs ys apart rising there back =
      rising_ext (sorted_by key xs) ys (sorted_by-IsRising xs apart) rising
        (λ z m. there z (mem-sorted_elim le xs m)) (λ z m. mem-sorted_intro le (back z m))
