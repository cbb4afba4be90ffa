-- ===== src/Audit/Redact.antt =====
-- `AuditLog._redact`: secrets are replaced, personal field names are hashed (kernel/audit.py).
use Prim.Native.String as S
use terminal_agent.Base.{
  ℕ, String, Bool, ◌&&◌, ◌||◌, List, [], ◌∷◌, ◌==◌, if◌then◌else◌, any, codes, codes_eq, ends_with,
  contains, lower,
}
use terminal_agent.Value.{
  Value, null, bool, num, str, arr, obj, Items, nil, cons, Fields, end, field, put,
}

-- `_redact_keys`
abbrev pub redact_keys : List String
redact_keys = "password" ∷ "secret" ∷ "token" ∷ "key" ∷ "credential" ∷ []

-- `_pii_field_names`
abbrev pub pii_field_names : List String
pii_field_names =
    "ssn" ∷ "social_security" ∷ "dob" ∷ "date_of_birth" ∷ "credit_card" ∷ "card_number" ∷ "cvv"
    ∷ "phone" ∷ "address" ∷ "zip" ∷ "postal" ∷ []

-- `_is_pii_field`
unfoldable pub is_pii_field : String → Bool
is_pii_field name = any (λ pii. contains (lower (codes name)) (codes pii)) pii_field_names

-- the test of one redacted key against a lower-cased field name
unfoldable pub names_secret : List ℕ → String → Bool
names_secret key_lower sensitive =
    codes_eq key_lower (codes sensitive)
    || ends_with key_lower (b'_' ∷ codes sensitive)
    || ends_with key_lower (codes sensitive)

unfoldable pub is_sensitive : String → Bool
unfolding names_secret
is_sensitive k = any (names_secret (lower (codes k))) redact_keys

abbrev pub hashed : (String → String) → String → String
hashed hash name = S.◌++◌ "[PII:" (S.◌++◌ (hash name) "]")

-- the section's parameters: `_hash_field_names`, and `_hash_field_name` with the log's salt
module _ (hashing : Bool) (hash : String → String) where
  unfoldable pub output_key : String → String
  output_key k = if hashing && is_pii_field k then hashed hash k else k

  -- the items of a list of field names
  unfoldable pub hash_items : Items → Items
  hash_items nil = nil
  hash_items (cons (str s) xs) =
      cons (str (if is_pii_field s then hashed hash s else s)) (hash_items xs)
  hash_items (cons v xs) = cons v (hash_items xs)

  abbrev names_fields : String → Bool
  names_fields parent_key = parent_key == "fields" || parent_key == "filled_fields"

  -- The loop of `_redact`: `result` grows by one assignment for each field.
  unfoldable mutual
    pub redact_value : String → String → Value → Value
    redact_value parent_key k (obj d) = obj (redact_into k end d)
    redact_value parent_key k (arr xs) =
        if names_fields parent_key
        then (if hashing then arr (hash_items xs) else arr xs)
        else arr xs
    redact_value parent_key k null = null
    redact_value parent_key k (bool b) = bool b
    redact_value parent_key k (num n) = num n
    redact_value parent_key k (str s) = str s

    pub redact_into : String → Fields → Fields → Fields
    redact_into parent_key result end = result
    redact_into parent_key result (field k v d) =
        redact_into parent_key
          (put result (output_key k)
            (if is_sensitive k then str "[REDACTED]" else redact_value parent_key k v))
          d

  unfoldable pub redact : Fields → Fields
  redact args = redact_into "" end args
