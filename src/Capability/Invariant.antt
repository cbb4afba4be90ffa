-- ===== src/Capability/Invariant.antt =====
-- The two indexes of the broker agree, whatever is granted and revoked (kernel/capabilities.py).
use terminal_agent.Base.{
  ℕ, ◌<◌, ◌≡◌, String, refl, sym, ap, subst, ◌∙◌, Option, none, some, [], ◌∷◌, ◌++◌, ◌==◌, eq_iff,
  eq_refl, arith, In, here, there, In-append_left, In-append_right, In-append_cases, Bool-cases,
  Option-cases, inl, inr, if◌then◌else◌,
}
use terminal_agent.Dict
use terminal_agent.Dict.{Dict, get-put, get-remove}
use terminal_agent.Platform.{Platform}
use terminal_agent.Audit.Log.{AuditLog}
use terminal_agent.Capability.{Capability, Broker, Request, init, caps_of, new_capability, grant}

module _ (os : Platform) where
  pub record IsValid (b : Broker) : Type 0 where
    -- what a principal's list holds is the principal's, and is known by its token
    pub listed :
        (p : String) (c : Capability)
        → In c (caps_of b p)
        → (c.principal ≡ p) × (Dict.get b.tokens c.token ≡ some c)
    -- what a token stands for is in its principal's list
    pub known :
        (t : String) (c : Capability)
        → Dict.get b.tokens t ≡ some c
        → (c.token ≡ t) × In c (caps_of b c.principal)
    -- every known token was drawn
    pub drawn :
        (t : String) (c : Capability)
        → Dict.get b.tokens t ≡ some c
        → (n : ℕ) × (n < b.drawn) × (t ≡ os.token_urlsafe n)

  pub init-IsValid : IsValid init
  unfolding caps_of Dict.get
  init-IsValid = record {
    listed = λ p c h. elim h [ ];
    known = λ t c h. cc;
    drawn = λ t c h. absurd (cc);
  }

  -- On a valid broker, the token that the next grant draws stands for no capability yet.
  pub token_fresh : (b : Broker) → IsValid b → Dict.get b.tokens (os.token_urlsafe b.drawn) ≡ none
  token_fresh b v = elim (Option-cases (Dict.get b.tokens (os.token_urlsafe b.drawn))) [
    | inl e ↦ e
    | inr (c, e) ↦
        let (n, lt, q) = v.drawn (os.token_urlsafe b.drawn) c e in
        absurd (omega (arith, os.token_urlsafe_inj b.drawn n q))
  ]

  module _ (now : ℕ) (r : Request) (b : Broker) (sink : Option AuditLog) where
    pub caps_of-grant :
        (p : String)
        → caps_of (grant os now r b sink).1 p ≡ (
            if r.principal == p then caps_of b p ++ new_capability os now r b ∷ [] else caps_of b p)
    unfolding caps_of grant
    caps_of-grant p = ground (
      arith,
      eq_iff r.principal p,
      get-put b.capabilities r.principal p
          (caps_of b r.principal ++ new_capability os now r b ∷ []),
    )

    pub tokens-grant :
        (t : String)
        → Dict.get (grant os now r b sink).1.tokens t ≡ (
            if os.token_urlsafe b.drawn == t
            then some (new_capability os now r b)
            else Dict.get b.tokens t)
    unfolding grant new_capability
    tokens-grant t = get-put b.tokens (os.token_urlsafe b.drawn) t _

    -- what was known stays known
    tokens-grant_old :
        (t : String) (c : Capability)
        → IsValid b
        → Dict.get b.tokens t ≡ some c
        → Dict.get (grant os now r b sink).1.tokens t ≡ some c
    tokens-grant_old t c v h =
        tokens-grant t ∙ ground (arith, eq_iff (os.token_urlsafe b.drawn) t, token_fresh b v)

    tokens-grant_new :
        Dict.get (grant os now r b sink).1.tokens (os.token_urlsafe b.drawn)
        ≡ some (new_capability os now r b)
    tokens-grant_new =
        tokens-grant (os.token_urlsafe b.drawn) ∙ rw (eq_refl (os.token_urlsafe b.drawn))

    -- a grant's capability is its principal's, and its token the drawn one
    new_capability_lem :
        ((new_capability os now r b).principal ≡ r.principal)
        × ((new_capability os now r b).token ≡ os.token_urlsafe b.drawn)
    unfolding new_capability
    new_capability_lem = (refl, refl)

    listed-new :
        (p : String) (c : Capability)
        → r.principal ≡ p
        → c ≡ new_capability os now r b
        → (c.principal ≡ p) × (Dict.get (grant os now r b sink).1.tokens c.token ≡ some c)
    listed-new p c q e = (
      ap (λ (x : Capability). x.principal) e ∙ new_capability_lem.0 ∙ q,
      ap (λ (x : Capability). Dict.get (grant os now r b sink).1.tokens x.token) e
          ∙ ap (Dict.get (grant os now r b sink).1.tokens) new_capability_lem.1
          ∙ tokens-grant_new
          ∙ ap {B = Option Capability} some (sym e),
    )

    listed-old :
        (p : String) (c : Capability)
        → IsValid b
        → In c (caps_of b p)
        → (c.principal ≡ p) × (Dict.get (grant os now r b sink).1.tokens c.token ≡ some c)
    listed-old p c v m = let (q, g) = v.listed p c m in (q, tokens-grant_old c.token c v g)

    pub In-grant_new :
        In (new_capability os now r b) (caps_of (grant os now r b sink).1 r.principal)
    In-grant_new =
        rw (caps_of-grant r.principal, eq_refl r.principal)
          (In-append_right (caps_of b r.principal) (new_capability os now r b ∷ []) (here refl))

    pub In-grant_old :
        (p : String) (c : Capability)
        → In c (caps_of b p)
        → In c (caps_of (grant os now r b sink).1 p)
    In-grant_old p c m = rw (caps_of-grant p) (elim (Bool-cases (r.principal == p)) [
      | inl e ↦ rw e (In-append_left (caps_of b p) (new_capability os now r b ∷ []) m)
      | inr e ↦ rw e m
    ])

    -- A grant keeps the indexes in agreement.
    pub grant-IsValid : IsValid b → IsValid (grant os now r b sink).1
    unfolding new_capability
    grant-IsValid v = record { listed = listed_after; known = known_after; drawn = drawn_after }
      where
        fresh : Dict.get b.tokens (os.token_urlsafe b.drawn) ≡ none
        fresh = token_fresh b v

        listed_after :
            (p : String) (c : Capability)
            → In c (caps_of (grant os now r b sink).1 p)
            → (c.principal ≡ p) × (Dict.get (grant os now r b sink).1.tokens c.token ≡ some c)
        listed_after p c h = elim (Bool-cases (r.principal == p)) [
          | inl e ↦
              elim (In-append_cases (caps_of b p) (new_capability os now r b ∷ [])
                (rw (caps_of-grant p, e) at h)) [
                  | inl m ↦ listed-old p c v m
                  | inr (here q) ↦ listed-new p c ((eq_iff r.principal p).0 e) q
                  | inr (there m) ↦ elim m [ ]
                ]
          | inr e ↦ listed-old p c v (rw (caps_of-grant p, e) at h)
        ]

        known_after :
            (t : String) (c : Capability)
            → Dict.get (grant os now r b sink).1.tokens t ≡ some c
            → (c.token ≡ t) × In c (caps_of (grant os now r b sink).1 c.principal)
        known_after t c h = elim (Bool-cases (os.token_urlsafe b.drawn == t)) [
          | inl e ↦
              let q : new_capability os now r b ≡ c = cc (rw (tokens-grant t, e) at h) in
              (
                ap (λ (x : Capability). x.token) (sym q) ∙ new_capability_lem.1 ∙ (eq_iff _ t).0 e,
                subst (λ x. In x (caps_of (grant os now r b sink).1 x.principal)) q
                    (rw (new_capability_lem.0) In-grant_new),
              )
          | inr e ↦
              let (q, m) = v.known t c (rw (tokens-grant t, e) at h) in
              (q, In-grant_old c.principal c m)
        ]

        drawn_after :
            (t : String) (c : Capability)
            → Dict.get (grant os now r b sink).1.tokens t ≡ some c
            → (n : ℕ) × (n < (grant os now r b sink).1.drawn) × (t ≡ os.token_urlsafe n)
        drawn_after t c h = elim (Bool-cases (os.token_urlsafe b.drawn == t)) [
          | inl e ↦ (
            b.drawn,
            unfold grant in omega arith,
            sym ((eq_iff (os.token_urlsafe b.drawn) t).0 e),
          )
          | inr e ↦
              let (n, lt, q) = v.drawn t c (rw (tokens-grant t, e) at h) in
              (n, unfold grant in omega arith, q)
        ]
