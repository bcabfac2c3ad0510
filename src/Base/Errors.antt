-- ===== src/Base/Errors.antt =====
-- Exceptions as values. `Error` has a constructor for each exception class that the modelled code
-- raises itself (`domain/errors.py`, `storage/errors.py`), for pydantic's `ValidationError`
-- (`validation`), for Python's `IndexError` and `ValueError`, and `link_lost` for the driver's
-- `asyncpg.PostgresError` and `OSError`. `persistence` is the base class `PersistenceError`.
use mathlib.Core.Path.{◌≡◌, refl}
use mathlib.Core.Bool.{Bool, true, false}

pub data Error : Type 0 where
  validation invariant_violation immutable_record revision_sequence : Error
  state_machine_definition rule_definition rule_context_incomplete : Error
  domain_reconstruction not_found integrity_constraint append_only_violation concurrency_conflict :
      Error
  persistence link_lost index_error value_error : Error

-- The value that a call returns, or the exception that it raises.
pub data Result {ℓ} (Value : Type ℓ) : Type ℓ where
  err : (raised : Error) → Result Value
  ok : (returned : Value) → Result Value

-- A statement after a call: it runs only when the call has returned.
abbrev pub ◌>>=◌ {ℓ κ} :
    {Value : Type ℓ} {Next : Type κ} → Result Value → (Value → Result Next) → Result Next
err raised >>= continue = err raised
ok returned >>= continue = continue returned

infixl 5 ◌>>=◌
-- The same for calls that change a state, which an exception leaves as it is at that moment.
abbrev pub and_then :
    {Value Next State : Type 0}
    → Result Value × State
    → (Value → State → Result Next × State)
    → Result Next × State
and_then (err raised, s) continue = (err raised, s)
and_then (ok returned, s) continue = continue returned s

abbrev pub is_ok {ℓ} : {Value : Type ℓ} → Result Value → Bool
is_ok (err _) = false
is_ok (ok _) = true

-- The same for a call whose value is not used.
abbrev pub ◌>>◌ {κ} : {Next : Type κ} → Result (Unit {0}) → Result Next → Result Next
check >> next = check >>= λ _. next

infixl 5 ◌>>◌
-- `if not condition: raise error`
abbrev pub guard : Bool → Error → Result (Unit {0})
guard false raised = err raised
guard true raised = ok tt

-- When a chain of calls has returned, its first call returned something, and so did the rest.
pub bind_elim {ℓ κ} :
    {Value : Type ℓ} {Next : Type κ} (call : Result Value) (continue : Value → Result Next)
    {last : Next}
    → (call >>= continue) ≡ ok last
    → (first : Value) × (call ≡ ok first) × (continue first ≡ ok last)
bind_elim (err raised) continue chain = cc
bind_elim (ok returned) continue chain = (returned, refl, chain)
