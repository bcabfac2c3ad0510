-- ===== src/Base/Sorting.antt =====
-- Python's `sorted`: a stable sort, here insertion from the right.
use Prim.Native.Nat.{ℕ, Ordering, ◌≤◌}
use Prim.Native.String.{String, compare}
use mathlib.Core.Path.{refl}
use mathlib.Core.Logic.{inl, inr}
use mathlib.Core.Bool.{Bool, true, false}
use mathlib.Core.Option.{Option, none, some}
use mathlib.Core.List.{List, [], ◌∷◌, Memᴰ}
use ai_engineering_os.Base.Tests.{leb, if◌then◌else◌, Bool-cases}

-- The order of `str`: by code point.
abbrev pub str_leb : String → String → Bool
str_leb a b = elim (compare a b) [ Ordering.gt ↦ false | _ ↦ true ]

module _ {ℓ} {A : Type ℓ} (le : A → A → Bool) where
  unfoldable pub insert_sorted : A → List A → List A
  insert_sorted x [] = x ∷ []
  insert_sorted x (y ∷ ys) =
      let rest = insert_sorted x ys in if le x y then x ∷ y ∷ ys else y ∷ rest

  unfoldable pub sorted : List A → List A
  unfolding insert_sorted
  sorted [] = []
  sorted (x ∷ xs) = insert_sorted x (sorted xs)

-- `sorted(xs, key=...)` for a numeric key.
abbrev pub sorted_by {ℓ} : {A : Type ℓ} → (A → ℕ) → List A → List A
sorted_by key xs = sorted (λ a b. leb (key a) (key b)) xs

module _ {ℓ} {A : Type ℓ} (le : A → A → Bool) where
  insert_mem_self : (x : A) (ys : List A) → Memᴰ x (insert_sorted le x ys)
  unfolding insert_sorted
  insert_mem_self x [] = Memᴰ.head refl
  insert_mem_self x (y ∷ ys) =
      let m = insert_mem_self x ys in
      elim (Bool-cases (le x y)) [ inl h ↦ rw h (Memᴰ.head refl) | inr h ↦ rw h (Memᴰ.tail m) ]

  insert_mem_keep : {z : A} (x : A) {ys : List A} → Memᴰ z ys → Memᴰ z (insert_sorted le x ys)
  unfolding insert_sorted
  insert_mem_keep x (Memᴰ.head {x = y} {xs = ys} e) = elim (Bool-cases (le x y)) [
    | inl h ↦ rw h (Memᴰ.tail (Memᴰ.head e))
    | inr h ↦ rw h (Memᴰ.head e)
  ]
  insert_mem_keep x (Memᴰ.tail {x = y} {xs = ys} m) =
      let k = insert_mem_keep x m in
      elim (Bool-cases (le x y)) [
        | inl h ↦ rw h (Memᴰ.tail (Memᴰ.tail m))
        | inr h ↦ rw h (Memᴰ.tail k)
      ]

  pub insert_mem_elim : {z x : A} (ys : List A) → Memᴰ z (insert_sorted le x ys) → Memᴰ z (x ∷ ys)
  unfolding insert_sorted
  insert_mem_elim [] m = m
  insert_mem_elim {z} {x} (y ∷ ys) m = split (le x y) m (insert_mem_elim {x = x} ys)
    where
      swap : Memᴰ z (x ∷ ys) → Memᴰ z (x ∷ y ∷ ys)
      swap (Memᴰ.head e) = Memᴰ.head e
      swap (Memᴰ.tail k) = Memᴰ.tail (Memᴰ.tail k)

      split :
          (b : Bool)
          → Memᴰ z (if b then x ∷ y ∷ ys else y ∷ insert_sorted le x ys)
          → (Memᴰ z (insert_sorted le x ys) → Memᴰ z (x ∷ ys))
          → Memᴰ z (x ∷ y ∷ ys)
      split true k ih = k
      split false (Memᴰ.head e) ih = Memᴰ.tail (Memᴰ.head e)
      split false (Memᴰ.tail k) ih = swap (ih k)

  -- Sorting neither adds nor drops a member.
  pub mem-sorted_intro : {z : A} {xs : List A} → Memᴰ z xs → Memᴰ z (sorted le xs)
  unfolding sorted
  mem-sorted_intro (Memᴰ.head {x = x} {xs = xs} e) = rw e (insert_mem_self x (sorted le xs))
  mem-sorted_intro (Memᴰ.tail {x = x} {xs = xs} m) = insert_mem_keep x (mem-sorted_intro m)

  pub mem-sorted_elim : {z : A} (xs : List A) → Memᴰ z (sorted le xs) → Memᴰ z xs
  unfolding sorted
  mem-sorted_elim [] m = m
  mem-sorted_elim {z} (x ∷ xs) m = back (insert_mem_elim (sorted le xs) m) (mem-sorted_elim xs)
    where
      back : Memᴰ z (x ∷ sorted le xs) → (Memᴰ z (sorted le xs) → Memᴰ z xs) → Memᴰ z (x ∷ xs)
      back (Memᴰ.head e) ih = Memᴰ.head e
      back (Memᴰ.tail k) ih = Memᴰ.tail (ih k)

-- The least key comes first.
module _ {ℓ} {A : Type ℓ} (key : A → ℕ) where
  abbrev IsLeast : ℕ → List A → Type ℓ
  IsLeast k ys = (z : A) → Memᴰ z ys → k ≤ key z

abbrev pub head? {ℓ} : {A : Type ℓ} → List A → Option A
head? [] = none
head? (x ∷ xs) = some x
