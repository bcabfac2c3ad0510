-- ===== src/Base/Lists.antt =====
-- Comprehensions, `any`, `all`, `in`, `next` and `len` over lists, with Boolean tests.
use Prim.Native.Nat.{ℕ, zero, suc, ◌+◌}
use mathlib.Core.Path.{◌≡◌, refl, sym, ◌∙◌}
use mathlib.Core.Logic.{inl, inr}
use mathlib.Core.Bool.{Bool, true, false, not, ◌&&◌, ◌||◌}
use mathlib.Core.Option.{Option, none, some}
use mathlib.Core.List.{List, [], ◌∷◌, ◌++◌, map, Memᴰ}
use native.Mathlib.Omega.{arith}
use ai_engineering_os.Base.Tests.{◌==◌, if◌then◌else◌, Bool-cases}

module _ {ℓ} {A : Type ℓ} where
  abbrev pub length : List A → ℕ
  length [] = 0
  length (x ∷ xs) = suc (length xs)

  abbrev pub is_empty : List A → Bool
  is_empty [] = true
  is_empty (x ∷ xs) = false

  abbrev pub get_elem? : List A → ℕ → Option A
  get_elem? [] i = none
  get_elem? (x ∷ xs) zero = some x
  get_elem? (x ∷ xs) (suc i) = get_elem? xs i

  -- `tuple(x for x in xs if p(x))`
  unfoldable pub filter : (A → Bool) → List A → List A
  filter p [] = []
  filter p (x ∷ xs) = let rest = filter p xs in if p x then x ∷ rest else rest

  unfoldable pub any : (A → Bool) → List A → Bool
  any p [] = false
  any p (x ∷ xs) = p x || any p xs

  unfoldable pub all : (A → Bool) → List A → Bool
  all p [] = true
  all p (x ∷ xs) = p x && all p xs

  -- `next((x for x in xs if p(x)), None)`
  unfoldable pub find : (A → Bool) → List A → Option A
  find p [] = none
  find p (x ∷ xs) = let rest = find p xs in if p x then some x else rest

  -- `d.get(key)` of the dictionary `{...: x for x in xs}`: the last binding of a key wins.
  unfoldable pub find_last : (A → Bool) → List A → Option A
  find_last p [] = none
  find_last p (x ∷ xs) = elim (find_last p xs) [
    | some y ↦ some y
    | none ↦ if p x then some x else none
  ]

  -- `len(set(xs)) == len(xs)`, for the equality `eq`.
  unfoldable pub no_duplicates : (A → A → Bool) → List A → Bool
  unfolding any
  no_duplicates eq [] = true
  no_duplicates eq (x ∷ xs) = not (any (eq x) xs) && no_duplicates eq xs

module _ {ℓ} {A : Type ℓ} where
  abbrev pub take : ℕ → List A → List A
  take zero xs = []
  take (suc n) [] = []
  take (suc n) (x ∷ xs) = x ∷ take n xs

  abbrev pub drop : ℕ → List A → List A
  drop zero xs = xs
  drop (suc n) [] = []
  drop (suc n) (x ∷ xs) = drop n xs

  pub length-append : (xs ys : List A) → length (xs ++ ys) ≡ length xs + length ys
  length-append [] ys = omega arith
  length-append (x ∷ xs) ys = omega (arith, length-append xs ys)

  pub mem-append_left : {x : A} {xs : List A} (ys : List A) → Memᴰ x xs → Memᴰ x (xs ++ ys)
  mem-append_left ys (Memᴰ.head e) = Memᴰ.head e
  mem-append_left ys (Memᴰ.tail m) = Memᴰ.tail (mem-append_left ys m)

  pub mem-append_right : {x : A} (xs : List A) {ys : List A} → Memᴰ x ys → Memᴰ x (xs ++ ys)
  mem-append_right [] m = m
  mem-append_right (y ∷ xs) m = Memᴰ.tail (mem-append_right xs m)

module _ {ℓ} {A : Type ℓ} (p : A → Bool) where
  pub mem-filter_intro : {x : A} {xs : List A} → Memᴰ x xs → p x ≡ true → Memᴰ x (filter p xs)
  unfolding filter
  mem-filter_intro (Memᴰ.head {x = y} {xs = ys} e) h =
      let hy : p y ≡ true = cc in rw hy (Memᴰ.head e)
  mem-filter_intro (Memᴰ.tail {x = y} {xs = ys} m) h =
      let found = mem-filter_intro m h in
      elim (Bool-cases (p y)) [
        | inl kept ↦ rw kept (Memᴰ.tail found)
        | inr dropped ↦ rw dropped found
      ]

  pub mem-filter_elim : {x : A} (xs : List A) → Memᴰ x (filter p xs) → Memᴰ x xs × (p x ≡ true)
  unfolding filter
  mem-filter_elim [] m = elim m [ ]
  mem-filter_elim {x} (y ∷ ys) m = split (p y) refl m (mem-filter_elim ys)
    where
      split :
          (b : Bool)
          → p y ≡ b
          → Memᴰ x (if b then y ∷ filter p ys else filter p ys)
          → (Memᴰ x (filter p ys) → Memᴰ x ys × (p x ≡ true))
          → Memᴰ x (y ∷ ys) × (p x ≡ true)
      split true h (Memᴰ.head e) ih = (Memᴰ.head e, cc)
      split true h (Memᴰ.tail k) ih = (Memᴰ.tail (ih k).0, (ih k).1)
      split false h k ih = (Memᴰ.tail (ih k).0, (ih k).1)

  -- `all` holds exactly when every member passes.
  pub all_elim : {x : A} {xs : List A} → all p xs ≡ true → Memᴰ x xs → p x ≡ true
  unfolding all
  all_elim h (Memᴰ.head {x = y} {xs = ys} e) = rw e (ground arith)
  all_elim h (Memᴰ.tail {x = y} {xs = ys} m) = all_elim {xs = ys} (ground arith) m

  pub all_intro : (xs : List A) → ((x : A) → Memᴰ x xs → p x ≡ true) → all p xs ≡ true
  unfolding all
  all_intro [] h = refl
  all_intro (x ∷ xs) h = rw (h x (Memᴰ.head refl)) (all_intro xs (λ y m. h y (Memᴰ.tail m)))

  pub any_intro : {x : A} {xs : List A} → Memᴰ x xs → p x ≡ true → any p xs ≡ true
  unfolding any
  any_intro (Memᴰ.head {x = y} {xs = ys} e) h = let hy : p y ≡ true = cc in rw hy
  any_intro (Memᴰ.tail {x = y} {xs = ys} m) h = let found = any_intro m h in ground arith

  pub any_elim : (xs : List A) → any p xs ≡ true → (x : A) × Memᴰ x xs × (p x ≡ true)
  unfolding any
  any_elim [] h = cc
  any_elim (x ∷ xs) h = elim (Bool-cases (p x)) [
    | inl hit ↦ (x, Memᴰ.head refl, hit)
    | inr miss ↦ let (y, m, hy) = any_elim xs (ground arith) in (y, Memᴰ.tail m, hy)
  ]

  pub find-some : (xs : List A) {x : A} → find p xs ≡ some x → Memᴰ x xs × (p x ≡ true)
  unfolding find
  find-some [] h = cc
  find-some (y ∷ ys) {x} h = elim (Bool-cases (p y)) [
    | inl hit ↦ let e : x ≡ y = ground arith in (Memᴰ.head e, rw e hit)
    | inr miss ↦
        let r : find p ys ≡ some x = ground arith in
        let (m, hx) = find-some ys r in (Memᴰ.tail m, hx)
  ]

  pub find-none : {x : A} {xs : List A} → find p xs ≡ none → Memᴰ x xs → p x ≡ false
  unfolding find
  find-none h (Memᴰ.head {x = y} {xs = ys} e) = rw e (ground arith)
  find-none h (Memᴰ.tail {x = y} {xs = ys} m) = find-none {xs = ys} (ground arith) m

  pub filter_all : (xs : List A) → ((x : A) → Memᴰ x xs → p x ≡ true) → filter p xs ≡ xs
  unfolding filter
  filter_all [] h = refl
  filter_all (x ∷ xs) h = rw (h x (Memᴰ.head refl), filter_all xs (λ y m. h y (Memᴰ.tail m))) refl

  pub filter-append : (xs ys : List A) → filter p (xs ++ ys) ≡ filter p xs ++ filter p ys
  unfolding filter
  filter-append [] ys = refl
  filter-append (x ∷ xs) ys =
      let rest = filter-append xs ys in
      elim (Bool-cases (p x)) [
        | inl kept ↦ rw (kept, rest) refl
        | inr dropped ↦ rw (dropped, rest) refl
      ]

  pub filter_none : (xs : List A) → ((x : A) → Memᴰ x xs → p x ≡ false) → filter p xs ≡ []
  unfolding filter
  filter_none [] h = refl
  filter_none (x ∷ xs) h = rw (h x (Memᴰ.head refl)) (filter_none xs (λ y m. h y (Memᴰ.tail m)))

  pub filter-eq-nil : {x : A} {xs : List A} → filter p xs ≡ [] → Memᴰ x xs → p x ≡ false
  filter-eq-nil {x} {xs} h m = elim (Bool-cases (p x)) [
    | inl hit ↦ absurd (not_mem_nil (mem-filter_intro m hit) h)
    | inr miss ↦ miss
  ]
    where
      not_mem_nil : {ys : List A} → Memᴰ x ys → ys ≡ [] → ⊥
      not_mem_nil (Memᴰ.head _) e = cc
      not_mem_nil (Memᴰ.tail _) e = cc

-- `set(xs)` of numbers, each once.
unfoldable pub distinct_ids : List ℕ → List ℕ
unfolding any
distinct_ids [] = []
distinct_ids (x ∷ xs) =
    let rest = distinct_ids xs in if any (λ y. y == x) rest then rest else x ∷ rest

-- A member of `[f(x) for x in xs]` is `f(x)` for a member of `xs`.
pub mem-map_elim {ℓ κ} :
    {A : Type ℓ} {B : Type κ} (f : A → B) (xs : List A) {y : B}
    → Memᴰ y (map f xs)
    → (x : A) × Memᴰ x xs × (f x ≡ y)
mem-map_elim f [] m = elim m [ ]
mem-map_elim {A = A} {B = B} f (x ∷ xs) {y} m =
    go (f x) (map f xs) refl (λ k. mem-map_elim f xs k) m
  where
    go :
        (z : B) (zs : List B)
        → f x ≡ z
        → (Memᴰ y zs → (w : A) × Memᴰ w xs × (f w ≡ y))
        → Memᴰ y (z ∷ zs)
        → (w : A) × Memᴰ w (x ∷ xs) × (f w ≡ y)
    go z zs p later (Memᴰ.head e) = (x, Memᴰ.head refl, λ i. (p ∙ sym e) i)
    go z zs p later (Memᴰ.tail k) = let (w, there, q) = later k in (w, Memᴰ.tail there, q)

pub is_empty_elim {ℓ} : {A : Type ℓ} (xs : List A) → is_empty xs ≡ true → xs ≡ []
is_empty_elim [] h = refl
is_empty_elim (x ∷ xs) h = cc
