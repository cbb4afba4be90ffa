-- ===== src/Result.antt =====
-- The exceptions that the kernel raises, and results of calls that may raise.
use terminal_agent.Base.{String}

pub data Error : Type 0 where
  -- `CapabilityDenied(principal, operation, resource)`
  capability_denied : String → String → String → Error
  -- `KeyError`, `TypeError`, `ValueError`, with the object's identity
  key_error : String → Error
  type_error : String → Error
  value_error : String → Error
  -- an operation of `None`, with the name of what it has not
  attribute_error : String → Error
  -- `TransactionError` and its subclasses
  transaction_error : Error
  transaction_not_found : String → Error
  transaction_not_active : String → Error
  checkpoint_not_found : String → Error
  -- `sqlite3.IntegrityError`, a row with a primary key that is present
  integrity_error : String → Error

pub data Result {ℓ} (A : Type ℓ) : Type ℓ where
  ok : A → Result A
  raise : Error → Result A
