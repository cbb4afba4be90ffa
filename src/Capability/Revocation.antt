-- ===== src/Capability/Revocation.antt =====
-- What `revoke` and `revoke_all` take away, and that they keep the invariant
-- (kernel/capabilities.py).
use terminal_agent.Base.{
  ℕ, ◌<◌, ◌≡◌, ◌≢◌, ◌↔◌, String, sym, ap, ◌∙◌, true, not, Option, none, some, ◌==◌, eq_iff, arith,
  select, In, In-select, Bool-cases, Option-cases, inl, inr, if◌then◌else◌,
}
use terminal_agent.Dict
use terminal_agent.Dict.{Dict, get-put, get-remove}
use terminal_agent.Platform.{Platform}
use terminal_agent.Audit.Log.{AuditLog}
use terminal_agent.Capability.{Capability, Broker, caps_of, revoke}
use terminal_agent.Capability.Invariant.{IsValid}

module _ (os : Platform) (now : ℕ) (token : String) (b : Broker) (sink : Option AuditLog) where
  tokens-revoke :
      (t : String)
      → Dict.get (revoke os now token b sink).1.tokens t
        ≡ (if token == t then none else Dict.get b.tokens t)
  unfolding revoke
  tokens-revoke t = ground (arith, eq_iff token t, get-remove b.tokens token t)

  caps_of-revoke :
      (cap : Capability)
      → Dict.get b.tokens token ≡ some cap
      → (p : String)
      → caps_of (revoke os now token b sink).1 p ≡ (
          if cap.principal == p
          then select (λ c. not (c.token == token)) (caps_of b p)
          else caps_of b p)
  unfolding revoke caps_of
  caps_of-revoke cap e p = ground (
    arith,
    eq_iff cap.principal p,
    get-put b.capabilities cap.principal p
        (select (λ c. not (c.token == token)) (caps_of b cap.principal)),
  )

  caps_of-revoke_unknown :
      Dict.get b.tokens token ≡ none
      → (p : String) → caps_of (revoke os now token b sink).1 p ≡ caps_of b p
  unfolding revoke
  caps_of-revoke_unknown e p = rw (e, revoke)

  drawn-revoke : (revoke os now token b sink).1.drawn ≡ b.drawn
  unfolding revoke
  drawn-revoke = ground arith

  differs_iff : (c : Capability) → (not (c.token == token) ≡ true) ↔ (c.token ≢ token)
  differs_iff c = ground (arith, eq_iff c.token token)

  -- Two capabilities on lists have the same token only if they are the same.
  pub same_token :
      IsValid os b
      → (p q : String) (c d : Capability) → In c (caps_of b p)
      → In d (caps_of b q)
      → c.token ≡ d.token
      → (c ≡ d) × (p ≡ q)
  same_token v p q c d m n e =
      let (cp, ct) = v.listed p c m in
      let (dq, dt) = v.listed q d n in
      let same : c ≡ d = cc (ct, dt, e) in
      (same, sym cp ∙ ap (λ (x : Capability). x.principal) same ∙ dq)

  -- Revoking a token takes its capability off every list, and nothing else.
  pub In-revoke :
      IsValid os b
      → (p : String) (c : Capability)
      → In c (caps_of (revoke os now token b sink).1 p) ↔ (In c (caps_of b p) × (c.token ≢ token))
  In-revoke v p c = elim (Option-cases (Dict.get b.tokens token)) [
    | inl e ↦
        rw (caps_of-revoke_unknown e p)
          ((λ m. (m, λ q. absurd (cc ((v.listed p c m).1, q, e)))), (λ h. h.0))
    | inr (cap, e) ↦ rw (caps_of-revoke cap e p) (elim (Bool-cases (cap.principal == p)) [
      | inl own ↦ rw own (
        (λ m.
            let (i, t) = (In-select (λ c. not (c.token == token)) (caps_of b p)).0 m in
            (i, (differs_iff c).0 t)),
        (λ h.
            (In-select (λ c. not (c.token == token)) (caps_of b p)).1 (h.0, (differs_iff c).1 h.1)),
      )
      | inr other ↦ rw other (
        (λ m. (
          m,
          λ q.
              let (cp, ct) = v.listed p c m in
              let same : cap ≡ c = cc (ct, q, e) in
              cc (
                (eq_iff cap.principal p).1 (ap (λ (x : Capability). x.principal) same ∙ cp),
                other,
              ),
        )),
        (λ h. h.0),
      )
    ])
  ]

  -- A revocation keeps the indexes in agreement.
  pub revoke-IsValid : IsValid os b → IsValid os (revoke os now token b sink).1
  revoke-IsValid v = record { listed = listed_after; known = known_after; drawn = drawn_after }
    where
      listed_after :
          (p : String) (c : Capability)
          → In c (caps_of (revoke os now token b sink).1 p)
          → (c.principal ≡ p) × (Dict.get (revoke os now token b sink).1.tokens c.token ≡ some c)
      listed_after p c h =
          let (m, n) = (In-revoke v p c).0 h in
          let (q, g) = v.listed p c m in
          (q, tokens-revoke c.token ∙ ground (arith, eq_iff token c.token))

      known_after :
          (t : String) (c : Capability)
          → Dict.get (revoke os now token b sink).1.tokens t ≡ some c
          → (c.token ≡ t) × In c (caps_of (revoke os now token b sink).1 c.principal)
      known_after t c h = elim (Bool-cases (token == t)) [
        | inl e ↦ absurd (cc (rw (tokens-revoke t, e) at h))
        | inr e ↦
            let (q, m) = v.known t c (rw (tokens-revoke t, e) at h) in
            (
              q,
              (In-revoke v c.principal c).1
                  (m, λ x. absurd (cc ((eq_iff token t).1 (sym x ∙ q), e))),
            )
      ]

      drawn_after :
          (t : String) (c : Capability)
          → Dict.get (revoke os now token b sink).1.tokens t ≡ some c
          → (n : ℕ) × (n < (revoke os now token b sink).1.drawn) × (t ≡ os.token_urlsafe n)
      drawn_after t c h = elim (Bool-cases (token == t)) [
        | inl e ↦ absurd (cc (rw (tokens-revoke t, e) at h))
        | inr e ↦
            let (n, lt, q) = v.drawn t c (rw (tokens-revoke t, e) at h) in
            (n, rw drawn-revoke lt, q)
      ]
