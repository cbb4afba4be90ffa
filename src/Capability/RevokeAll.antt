-- ===== src/Capability/RevokeAll.antt =====
-- What `revoke_all` takes away, and that it keeps the invariant (kernel/capabilities.py).
use terminal_agent.Base.{
  ℕ, ◌<◌, ◌≡◌, ◌≢◌, String, refl, ap, ◌∙◌, Option, none, some, List, [], ◌∷◌, ◌==◌, eq_iff, arith,
  In, here, there, Bool-cases, Option-cases, inl, inr, if◌then◌else◌,
}
use terminal_agent.Dict
use terminal_agent.Dict.{Dict, get-put, get-remove}
use terminal_agent.Platform.{Platform}
use terminal_agent.Audit.Log.{AuditLog}
use terminal_agent.Capability.{Capability, Broker, caps_of, revoke_all, forget}
use terminal_agent.Capability.Invariant.{IsValid}
use terminal_agent.Capability.Revocation.{same_token}

module _ (os : Platform) (now : ℕ) where
  -- what is left after tokens are dropped was there before
  get-of_forget :
      (d : Dict Capability) (cs : List Capability) (t : String) (c : Capability)
      → Dict.get (forget os now d cs) t ≡ some c
      → Dict.get d t ≡ some c
  unfolding forget
  get-of_forget d [] t c h = h
  get-of_forget d (x ∷ cs) t c h =
      let g = get-of_forget (Dict.remove d x.token) cs t c h in
      ground (arith, get-remove d x.token t, g)

  get-forget-none :
      (d : Dict Capability) (cs : List Capability) (t : String)
      → Dict.get d t ≡ none
      → Dict.get (forget os now d cs) t ≡ none
  get-forget-none d cs t h = elim (Option-cases (Dict.get (forget os now d cs) t)) [
    | inl e ↦ e
    | inr (c, e) ↦ absurd (cc (get-of_forget d cs t c e, h))
  ]

  get-forget-In :
      (d : Dict Capability) (cs : List Capability) (c : Capability)
      → In c cs
      → Dict.get (forget os now d cs) c.token ≡ none
  unfolding forget
  get-forget-In d [] c h = elim h [ ]
  get-forget-In d (x ∷ cs) c (here e) = get-forget-none (Dict.remove d x.token) cs c.token (
      ground (
        arith,
        get-remove d x.token c.token,
        eq_iff x.token c.token,
        ap (λ (y : Capability). y.token) e,
      ))
  get-forget-In d (x ∷ cs) c (there m) = get-forget-In (Dict.remove d x.token) cs c m

  get-forget_other :
      (d : Dict Capability) (cs : List Capability) (t : String)
      → ((c : Capability) → In c cs → c.token ≢ t)
      → Dict.get (forget os now d cs) t ≡ Dict.get d t
  unfolding forget
  get-forget_other d [] t h = refl
  get-forget_other d (x ∷ cs) t h =
      get-forget_other (Dict.remove d x.token) cs t (λ c m. h c (there m))
      ∙ ground (arith, get-remove d x.token t, eq_iff x.token t, h x (here refl))

  module _ (principal : String) (b : Broker) (sink : Option AuditLog) where
    -- Revoking all of a principal's capabilities empties its list and leaves the others' alone.
    pub caps_of-revoke_all :
        (p : String)
        → caps_of (revoke_all os now principal b sink).1 p
          ≡ (if principal == p then [] else caps_of b p)
    unfolding revoke_all caps_of
    caps_of-revoke_all p = ground (arith, get-remove b.capabilities principal p)

    tokens-revoke_all :
        (revoke_all os now principal b sink).1.tokens ≡ forget os now b.tokens (caps_of b principal)
    unfolding revoke_all
    tokens-revoke_all = refl

    -- The bulk revocation keeps the indexes in agreement.
    pub revoke_all-IsValid : IsValid os b → IsValid os (revoke_all os now principal b sink).1
    revoke_all-IsValid v = record {
      listed = listed_after;
      known = known_after;
      drawn = drawn_after;
    }
      where
        listed_after :
            (p : String) (c : Capability)
            → In c (caps_of (revoke_all os now principal b sink).1 p)
            → (c.principal ≡ p)
              × (Dict.get (revoke_all os now principal b sink).1.tokens c.token ≡ some c)
        listed_after p c h = elim (Bool-cases (principal == p)) [
          | inl e ↦ elim (rw (caps_of-revoke_all p, e) at h) [ ]
          | inr e ↦
              let m = rw (caps_of-revoke_all p, e) at h in
              let (q, g) = v.listed p c m in
              (
                q,
                rw tokens-revoke_all (
                    get-forget_other b.tokens (caps_of b principal) c.token (λ d n t. absurd (
                      cc (
                        (eq_iff principal p).1
                            (same_token os now c.token b sink v principal p d c n m t).1,
                        e,
                      )))
                    ∙ g),
              )
        ]

        before :
            (t : String) (c : Capability)
            → Dict.get (revoke_all os now principal b sink).1.tokens t ≡ some c
            → Dict.get b.tokens t ≡ some c
        before t c h = get-of_forget b.tokens (caps_of b principal) t c (rw tokens-revoke_all at h)

        known_after :
            (t : String) (c : Capability)
            → Dict.get (revoke_all os now principal b sink).1.tokens t ≡ some c
            → (c.token ≡ t) × In c (caps_of (revoke_all os now principal b sink).1 c.principal)
        known_after t c h =
            let (q, m) = v.known t c (before t c h) in
            elim (Bool-cases (principal == c.principal)) [
              | inl e ↦
                  let n : In c (caps_of b principal) = rw ((eq_iff principal c.principal).0 e) m in
                  absurd (
                    cc (
                      get-forget-In b.tokens (caps_of b principal) c n,
                      q,
                      rw tokens-revoke_all at h,
                    ))
              | inr e ↦ (q, rw (caps_of-revoke_all c.principal, e) m)
            ]

        drawn_after :
            (t : String) (c : Capability)
            → Dict.get (revoke_all os now principal b sink).1.tokens t ≡ some c
            → (n : ℕ) × (n < (revoke_all os now principal b sink).1.drawn)
              × (t ≡ os.token_urlsafe n)
        drawn_after t c h = unfold revoke_all in v.drawn t c (before t c h)
