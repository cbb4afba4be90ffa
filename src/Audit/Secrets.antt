-- ===== src/Audit/Secrets.antt =====
-- What `_redact` keeps out of the log (kernel/audit.py).
use terminal_agent.Base.{String, ◌≡◌, refl, ap, Bool, true, false, ◌&&◌, if◌then◌else◌}
use terminal_agent.Value.{Value, str, arr, obj, Items, Fields, end, field, put}
use terminal_agent.Audit.Redact.{
  is_pii_field, is_sensitive, output_key, redact_value, redact_into, redact,
}

-- Two arguments that differ only in values behind sensitive keys, at any depth of dicts.
mutual
  pub data Alike : Value → Value → Type 0 where
    same : (v : Value) → Alike v v
    inside : {d e : Fields} → AlikeFields d e → Alike (obj d) (obj e)

  pub data AlikeFields : Fields → Fields → Type 0 where
    nothing : AlikeFields end end
    secret :
        (k : String) (v w : Value) {d e : Fields}
        → is_sensitive k ≡ true
        → AlikeFields d e
        → AlikeFields (field k v d) (field k w e)
    plain :
        (k : String) {v w : Value} {d e : Fields}
        → Alike v w
        → AlikeFields d e
        → AlikeFields (field k v d) (field k w e)

module _ (hashing : Bool) (hash : String → String) where
  mutual
    unfolding redact_into

    value-Alike :
        (p k : String) {v w : Value}
        → Alike v w
        → redact_value hashing hash p k v ≡ redact_value hashing hash p k w
    value-Alike p k (same v) = refl
    value-Alike p k (inside h) = ap obj (fields-AlikeFields k end h)

    fields-AlikeFields :
        (p : String) (r : Fields) {d e : Fields}
        → AlikeFields d e
        → redact_into hashing hash p r d ≡ redact_into hashing hash p r e
    fields-AlikeFields p r nothing = refl
    fields-AlikeFields p r (secret k v w s h) =
        rw s (fields-AlikeFields p (put r (output_key hashing hash k) (str "[REDACTED]")) h)
    fields-AlikeFields p r (plain k {v} {w} a h) = rw (value-Alike p k a) (
        fields-AlikeFields p
          (put r (output_key hashing hash k)
            (if is_sensitive k then str "[REDACTED]" else redact_value hashing hash p k w))
          h)

  -- Arguments that differ only in values behind sensitive keys, at any depth of nested dicts, are
  -- recorded alike.
  pub redact-AlikeFields :
      {d e : Fields} → AlikeFields d e → redact hashing hash d ≡ redact hashing hash e
  unfolding redact
  redact-AlikeFields h = fields-AlikeFields "" end h

  -- A list under a name that is neither sensitive nor hashed is recorded as it is, whatever dicts
  -- it holds.
  pub redact-list :
      (k : String) (xs : Items)
      → is_sensitive k ≡ false
      → (hashing && is_pii_field k) ≡ false
      → redact hashing hash (field k (arr xs) end) ≡ field k (arr xs) end
  unfolding redact redact_into output_key put
  redact-list k xs harmless shown = rw (harmless, shown)
