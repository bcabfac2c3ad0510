-- ===== src/Base/Labels.antt =====
-- Python's `StrEnum`: a finite type of named members, compared by identity and ordered by name.
use Prim.Native.Nat.{ℕ}
use Prim.Native.String.{String}
use mathlib.Core.Path.{◌≡◌, refl, ap}
use mathlib.Core.Logic.{◌↔◌}
use mathlib.Core.Bool.{Bool, true}
use mathlib.Core.Option.{some}
use mathlib.Core.List.{List, [], ◌∷◌, Memᴰ}
use ai_engineering_os.Base.Tests.{◌==◌, ==_iff, if◌then◌else◌}
use ai_engineering_os.Base.Lists.{get_elem?, any, any_intro, any_elim}
use ai_engineering_os.Base.Sorting.{str_leb, sorted}

-- `members` is the declaration order, which is also the order of iteration over the class.
pub record StrEnum (A : Type 0) : Type 0 where
  pub members : List A
  pub index : A → ℕ
  pub label : A → String
  pub index_members : (a : A) → get_elem? members (index a) ≡ some a

module _ {A : Type 0} ⦃e : StrEnum A⦄ where
  -- `a is b`
  abbrev pub same : A → A → Bool
  same a b = e.index a == e.index b

  pub same_iff : (a b : A) → (same a b ≡ true) ↔ (a ≡ b)
  same_iff a b = (λ h. index_injective ((==_iff _ _).0 h), λ h. (==_iff _ _).1 (ap e.index h))
    where
      index_injective : e.index a ≡ e.index b → a ≡ b
      index_injective h = cc (e.index_members a, e.index_members b, h)

  -- `a in xs`
  abbrev pub elem : A → List A → Bool
  elem a xs = any (λ x. same x a) xs

  pub elem_iff : (a : A) (xs : List A) → (elem a xs ≡ true) ↔ Memᴰ a xs
  elem_iff a xs = (
    λ h. let (x, m, s) = any_elim (λ x. same x a) xs h in move ((same_iff x a).0 s) m,
    λ m. any_intro (λ x. same x a) m ((same_iff a a).1 refl),
  )
    where
      move : {x : A} → x ≡ a → Memᴰ x xs → Memᴰ a xs
      move p m = rw p at m

  -- `sorted(...)` of enumeration members: by name.
  abbrev pub sorted_members : List A → List A
  sorted_members xs = sorted (λ a b. str_leb (e.label a) (e.label b)) xs

  -- `set(xs)`, each member once.
  unfoldable pub distinct : List A → List A
  distinct [] = []
  distinct (x ∷ xs) = let rest = distinct xs in if elem x rest then rest else x ∷ rest
