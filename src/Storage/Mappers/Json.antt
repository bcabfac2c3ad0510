-- ===== src/Storage/Mappers/Json.antt =====
-- storage/mappers/qa.py: the JSON objects that a QA Report keeps in columns. `uuid.UUID` is not code of
-- the repository: its printing and parsing are `Uuids`. Coercions of pydantic from one JSON type to
-- another are left out: a value of another type is refused.
use ai_engineering_os.Base.{
  Bool, Error, List, Option, Result, String, [], all, err, find, none, ok, some, str_eq, ℕ, ◌>>=◌,
  ◌||◌, ◌∷◌,
}
use ai_engineering_os.Storage.Mappers.{reconstruct}
use ai_engineering_os.Domain.Qa.{TestResult}

pub record Uuids : Type 0 where
  pub print : ℕ → String
  pub parse : String → Option ℕ

pub data Scalar : Type 0 where
  null : Scalar
  boolean : Bool → Scalar
  text : String → Scalar

abbrev pub JsonObject : Type 0
JsonObject = List (String × Scalar)

-- The value under a key.
unfoldable pub entry : String → JsonObject → Option Scalar
entry key object = value (find (λ (k, _). str_eq k key) object)
  where
    value : Option (String × Scalar) → Option Scalar
    value none = none
    value (some (_, v)) = some v

abbrev nullable : Option String → Scalar
nullable none = Scalar.null
nullable (some words) = Scalar.text words

-- `result.model_dump(mode="json")`
unfoldable pub dump_result : TestResult → JsonObject
dump_result result =
    ("name", Scalar.text result.name)
    ∷ ("passed", Scalar.boolean result.passed)
    ∷ ("details", nullable result.details)
    ∷ []

unfoldable pub required_text : Option Scalar → Result String
required_text (some (Scalar.text words)) = ok words
required_text (some (Scalar.boolean _)) = err Error.domain_reconstruction
required_text (some Scalar.null) = err Error.domain_reconstruction
required_text none = err Error.domain_reconstruction

unfoldable pub required_boolean : Option Scalar → Result Bool
required_boolean (some (Scalar.boolean b)) = ok b
required_boolean (some (Scalar.text _)) = err Error.domain_reconstruction
required_boolean (some Scalar.null) = err Error.domain_reconstruction
required_boolean none = err Error.domain_reconstruction

-- With the default `None`.
unfoldable pub optional_text : Option Scalar → Result (Option String)
optional_text none = ok none
optional_text (some Scalar.null) = ok none
optional_text (some (Scalar.text words)) = ok (some words)
optional_text (some (Scalar.boolean _)) = err Error.domain_reconstruction

-- `extra="forbid"`: the fields of `TestResult`, and no others.
unfoldable pub has_only_fields : JsonObject → Bool
has_only_fields object =
    all (λ (k, _). str_eq k "name" || (str_eq k "passed" || str_eq k "details")) object

unfoldable pub read_result : JsonObject → Result TestResult
read_result object = do
  name ← required_text (entry "name" object)
  passed ← required_boolean (entry "passed" object)
  details ← optional_text (entry "details" object)
  reconstruct (λ _. has_only_fields object)
      (record { name = name; passed = passed; details = details })

module _ (uuids : Uuids) where
  unfoldable pub read_uuid : String → Result ℕ
  read_uuid words = found (uuids.parse words)
    where
      found : Option ℕ → Result ℕ
      found none = err Error.domain_reconstruction
      found (some n) = ok n
