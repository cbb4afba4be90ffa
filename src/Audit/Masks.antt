-- ===== src/Audit/Masks.antt =====
-- What the keys of a recorded dict look like (`_redact` of kernel/audit.py).
use terminal_agent.Base.{
  ℕ, String, ◌≡◌, ◌≢◌, refl, sym, ap, ◌∙◌, true, false, ◌||◌, List, [], ◌∷◌, ◌++◌, ◌==◌, ◌⊎◌, inl,
  inr, eq_iff, arith, codes, codes-append, codes_eq, codes_eq_iff, ends_with, ends_with_sound,
  lower, Bool-cases,
}
use mathlib.Core.List.{append_assoc}
use terminal_agent.Value.{Value, null, bool, num, str, arr, obj, Fields, end, field, put}
use terminal_agent.Audit.Redact.{
  is_pii_field, names_secret, is_sensitive, hashed, output_key, redact_value, redact_into, redact,
}

last : List ℕ → ℕ
last [] = 0
last (c ∷ []) = c
last (c ∷ d ∷ s) = last (d ∷ s)

last-append : (s t : List ℕ) (c : ℕ) → last (s ++ c ∷ t) ≡ last (c ∷ t)
unfolding last
last-append [] t c = refl
last-append (x ∷ []) t c = refl
last-append (x ∷ y ∷ s) t c = last-append (y ∷ s) t c

last_of_ends : (s t : List ℕ) (c : ℕ) → ends_with s (c ∷ t) ≡ true → last s ≡ last (c ∷ t)
last_of_ends s t c h = let (r, e) = ends_with_sound s (c ∷ t) h in ap last e ∙ last-append r t c

-- a key that names a secret ends in the last letter of a redacted key
last_of_secret :
    (s : List ℕ) (w : String) (c : ℕ) (t : List ℕ)
    → codes w ≡ c ∷ t
    → names_secret s w ≡ true
    → last s ≡ last (c ∷ t)
unfolding names_secret
last_of_secret s w c t e h = elim (Bool-cases (codes_eq s (codes w))) [
  | inl q ↦ ap last ((codes_eq_iff s (codes w)).0 q ∙ e)
  | inr n ↦ elim (Bool-cases (ends_with s (b'_' ∷ codes w))) [
    | inl q ↦
        last_of_ends s (codes w) b'_' q ∙ ap (λ u. last (b'_' ∷ u)) e ∙ last-append (b'_' ∷ []) t c
    | inr m ↦ last_of_ends s t c (rw (n, m, e) at h)
  ]
]

not_secret :
    (s : List ℕ) (w : String) (c : ℕ) (t : List ℕ)
    → codes w ≡ c ∷ t
    → last s ≢ last (c ∷ t)
    → names_secret s w ≡ false
not_secret s w c t e h = elim (Bool-cases (names_secret s w)) [
  | inl q ↦ absurd (h (last_of_secret s w c t e q))
  | inr q ↦ q
]

last_of_lower : (s : List ℕ) → last (lower (s ++ b']' ∷ [])) ≡ b']'
unfolding lower last
last_of_lower [] = refl
last_of_lower (c ∷ []) = refl
last_of_lower (c ∷ d ∷ s) = last_of_lower (d ∷ s)

codes-hashed :
    (hash : String → String) (k : String)
    → codes (hashed hash k) ≡ (codes "[PII:" ++ codes (hash k)) ++ b']' ∷ []
codes-hashed hash k = rw (codes-append, codes-append) (simp append_assoc)

-- a hashed name is never one that is masked for being secret
is_sensitive-hashed : (hash : String → String) (k : String) → is_sensitive (hashed hash k) ≡ false
unfolding is_sensitive last
is_sensitive-hashed hash k = simp (
  miss "password" b'p' (codes "assword") refl (omega arith),
  miss "secret" b's' (codes "ecret") refl (omega arith),
  miss "token" b't' (codes "oken") refl (omega arith),
  miss "key" b'k' (codes "ey") refl (omega arith),
  miss "credential" b'c' (codes "redential") refl (omega arith),
)
  where
    ends : last (lower (codes (hashed hash k))) ≡ b']'
    ends =
        ap (λ s. last (lower s)) (codes-hashed hash k)
        ∙ last_of_lower (codes "[PII:" ++ codes (hash k))

    miss :
        (w : String) (c : ℕ) (t : List ℕ)
        → codes w ≡ c ∷ t
        → b']' ≢ last (c ∷ t)
        → names_secret (lower (codes (hashed hash k))) w ≡ false
    miss w c t e n = not_secret _ w c t e (λ q. n (sym ends ∙ q))

module _ (hash : String → String) where
  -- what a recorded dict shows of a field's name: the name, if it is not personal, or a digest
  abbrev pub KeyIsMasked : String → Type 0
  KeyIsMasked k = (is_pii_field k ≡ false) ⊎ ((name : String) × (k ≡ hashed hash name))

  -- At every depth of dicts: the names are masked, and a secret's value is not there.
  unfoldable mutual
    pub IsMasked : Fields → Type 0
    IsMasked end = Unit
    IsMasked (field k v d) =
        KeyIsMasked k
        × (is_sensitive k ≡ true → v ≡ str "[REDACTED]")
        × IsMaskedValue v
        × IsMasked d

    pub IsMaskedValue : Value → Type 0
    IsMaskedValue (obj d) = IsMasked d
    IsMaskedValue (str s) = Unit
    IsMaskedValue (num n) = Unit
    IsMaskedValue (bool b) = Unit
    IsMaskedValue null = Unit
    IsMaskedValue (arr xs) = Unit

  put-IsMasked :
      (d : Fields) (k : String) (v : Value)
      → IsMasked d
      → KeyIsMasked k
      → (is_sensitive k ≡ true → v ≡ str "[REDACTED]")
      → IsMaskedValue v
      → IsMasked (put d k v)
  unfolding put IsMasked
  put-IsMasked end k v h hk hs hv = (hk, hs, hv, tt)
  put-IsMasked (field j w d) k v h hk hs hv = elim (Bool-cases (j == k)) [
    | inl e ↦ rw e (h.0, (λ s. hs (rw ((eq_iff j k).0 e) at s)), hv, h.3)
    | inr e ↦ rw e (h.0, h.1, h.2, put-IsMasked d k v h.3 hk hs hv)
  ]

  output_key-IsMasked : (k : String) → KeyIsMasked (output_key true hash k)
  unfolding output_key
  output_key-IsMasked k = elim (Bool-cases (is_pii_field k)) [
    | inl e ↦ rw e (inr (k, refl))
    | inr e ↦ rw e (inl e)
  ]

  output_key-is_sensitive :
      (k : String) → is_sensitive (output_key true hash k) ≡ true → is_sensitive k ≡ true
  unfolding output_key
  output_key-is_sensitive k h = elim (Bool-cases (is_pii_field k)) [
    | inl e ↦ cc (is_sensitive-hashed hash k, rw e at h)
    | inr e ↦ rw e at h
  ]

  mutual
    unfolding redact_into IsMasked

    value-IsMaskedValue : (p k : String) (v : Value) → IsMaskedValue (redact_value true hash p k v)
    value-IsMaskedValue p k (obj d) = fields-IsMasked k end d tt
    value-IsMaskedValue p k (str s) = tt
    value-IsMaskedValue p k (num n) = tt
    value-IsMaskedValue p k (bool b) = tt
    value-IsMaskedValue p k null = tt
    value-IsMaskedValue p k (arr xs) = elim (Bool-cases (p == "fields" || p == "filled_fields")) [
      | inl e ↦ rw e tt
      | inr e ↦ rw e tt
    ]

    fields-IsMasked :
        (p : String) (r d : Fields) → IsMasked r → IsMasked (redact_into true hash p r d)
    fields-IsMasked p r end h = h
    fields-IsMasked p r (field k v d) h = elim (Bool-cases (is_sensitive k)) [
      | inl e ↦ rw e (
          fields-IsMasked p (put r (output_key true hash k) (str "[REDACTED]")) d (
            put-IsMasked r (output_key true hash k) (str "[REDACTED]") h (output_key-IsMasked k)
              (λ _. refl) tt))
      | inr e ↦ rw e (
          fields-IsMasked p (put r (output_key true hash k) (redact_value true hash p k v)) d (
            put-IsMasked r (output_key true hash k) (redact_value true hash p k v) h
              (output_key-IsMasked k) (λ s. cc (output_key-is_sensitive k s, e))
              (value-IsMaskedValue p k v)))
    ]

  -- With hashing on, at every depth of nested dicts, each name in a recorded dict is a name that
  -- is not personal or a digest, and the value behind a sensitive name is the mark "[REDACTED]".
  pub redact-IsMasked : (args : Fields) → IsMasked (redact true hash args)
  unfolding redact IsMasked
  redact-IsMasked args = fields-IsMasked "" end args tt
