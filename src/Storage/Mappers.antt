-- ===== src/Storage/Mappers.antt =====
-- storage/mappers/base.py, and what the mappers of storage/mappers share. A row is a record of its
-- columns: a `VARCHAR` with a label of an enumeration is a string, and a JSONB column is the list or
-- the record that it encodes. The metadata columns, which no mapper reads, are left out.
pub mod Reading
pub mod Task
pub mod Revision
pub mod Feature
pub mod Plan
pub mod WorkPackage
pub mod Evidence
pub mod Qa
pub mod Decision
pub mod Actor
pub mod Event
pub mod Labels
pub mod RoundTrip
pub mod Json
pub mod Ledgers
use ai_engineering_os.Rules.Results.{texts}
use ai_engineering_os.Base.{
  Bool, Error, List, Option, Result, StrEnum, String, [], err, find, if◌then◌else◌, none, ok, some,
  str_eq, ℕ, ◌+◌, ◌∷◌, ◌>>=◌, ◌>>◌,
}

-- `.value`
abbrev pub value_of : {A : Type 0} → ⦃e : StrEnum A⦄ → A → String
value_of ⦃e⦄ a = e.label a

-- The member with a value, as pydantic looks it up.
unfoldable pub read_member : {A : Type 0} → ⦃e : StrEnum A⦄ → String → Result A
read_member {A} ⦃e⦄ text = found (find (λ a. str_eq (e.label a) text) e.members)
  where
    found : Option A → Result A
    found none = err Error.domain_reconstruction
    found (some a) = ok a

unfoldable pub read_members : {A : Type 0} → ⦃e : StrEnum A⦄ → List String → Result (List A)
read_members [] = ok []
read_members (text ∷ texts) = do a ← read_member text; rest ← read_members texts; ok (a ∷ rest)

-- `reconstruct`, once the fields are read.
unfoldable pub reconstruct : {Model : Type 0} → (Model → Bool) → Model → Result Model
reconstruct is_valid model = if is_valid model then ok model else err Error.domain_reconstruction

-- `[to_domain(child) for child in children]`, where each may raise.
unfoldable pub read_all : {A B : Type 0} → (A → Result B) → List A → Result (List B)
read_all to_domain [] = ok []
read_all to_domain (x ∷ xs) = do y ← to_domain x; ys ← read_all to_domain xs; ok (y ∷ ys)

-- `[to_row(position, child) for position, child in enumerate(children)]`, from the position `n`.
unfoldable pub rows_from : {A Row : Type 0} → (ℕ → A → Row) → ℕ → List A → List Row
rows_from to_row n [] = []
rows_from to_row n (x ∷ xs) = to_row n x ∷ rows_from to_row (n + 1) xs
