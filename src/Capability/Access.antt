-- ===== src/Capability/Access.antt =====
-- Who is allowed what, and what is logged about it (`check`, `require` of kernel/capabilities.py).
use terminal_agent.Base.{
  ℕ, ◌+◌, ◌≤◌, ◌≡◌, ◌≢◌, ◌↔◌, String, refl, sym, ap, subst, ◌∙◌, Bool, true, false, Option, some,
  [], ◌==◌, eq_iff, arith, Bool-cases, Option-cases, inl, inr, if◌then◌else◌,
}
use terminal_agent.Platform.{Platform}
use terminal_agent.Result.{ok, raise, capability_denied}
use terminal_agent.Audit.Log.{AuditLog, log, log_if}
use terminal_agent.Capability.{
  Broker, Request, caps_of, grant, revoke, revoke_all, check, check_event, any_allows, is_expired,
  new_capability, expiry,
}
use terminal_agent.Capability.Matching.{Covers}
use terminal_agent.Capability.Invariant.{IsValid, caps_of-grant, In-grant_new}
use terminal_agent.Capability.Revocation.{In-revoke}
use terminal_agent.Capability.RevokeAll.{caps_of-revoke_all}
use terminal_agent.Capability.Allowing.{Allows, any_allows_iff}

module _ (os : Platform) (now : ℕ) (principal operation resource : String) (b : Broker) where
  -- A check answers yes exactly when the list of the principal holds a capability that has not
  -- expired and covers the operation and the resource, whether or not a denial is raised.
  pub check_iff :
      (strict : Bool) (sink : Option AuditLog)
      → ((check os now strict principal operation resource b sink).0 ≡ ok true)
        ↔ Allows now operation resource (caps_of b principal)
  unfolding check
  check_iff strict sink =
      elim (Bool-cases (any_allows now operation resource (caps_of b principal))) [
        | inl e ↦
            rw e (
              (λ _. (any_allows_iff now operation resource (caps_of b principal)).0 e),
              (λ _. refl),
            )
        | inr e ↦ rw e (
          (λ h. ground arith),
          (λ a. absurd (cc ((any_allows_iff now operation resource (caps_of b principal)).1 a, e))),
        )
      ]

  -- Without such a capability a strict check raises `CapabilityDenied` with the names of the call, and a
  -- lenient one answers no.
  pub check-denied :
      (strict : Bool) (sink : Option AuditLog)
      → ¬ Allows now operation resource (caps_of b principal)
      → (check os now strict principal operation resource b sink).0
        ≡ (if strict then raise (capability_denied principal operation resource) else ok false)
  unfolding check
  check-denied strict sink h =
      elim (Bool-cases (any_allows now operation resource (caps_of b principal))) [
        | inl e ↦ absurd (h ((any_allows_iff now operation resource (caps_of b principal)).0 e))
        | inr e ↦ rw e
      ]

  -- On a log, every check writes exactly one entry: "allowed" if it answers yes, and "denied" if
  -- it does not.
  pub check-log :
      (strict : Bool) (l : AuditLog)
      → ((check os now strict principal operation resource b (some l)).0 ≡ ok true
          → (check os now strict principal operation resource b (some l)).1
            ≡ some (log os now (check_event principal operation resource "allowed") l))
        × ((check os now strict principal operation resource b (some l)).0 ≢ ok true
            → (check os now strict principal operation resource b (some l)).1
              ≡ some (log os now (check_event principal operation resource "denied") l))
  unfolding check log_if
  check-log strict l = elim (Bool-cases (any_allows now operation resource (caps_of b principal))) [
    | inl e ↦ rw e ((λ _. refl), (λ h. absurd (h refl)))
    | inr e ↦ rw e ((λ h. ground arith), (λ _. refl))
  ]

module _ (os : Platform) (r : Request) (b : Broker) (sink : Option AuditLog) (now later : ℕ) where
  -- After a grant, while it has not expired, a check of anything that its two patterns cover
  -- answers yes to its principal.
  pub check-grant :
      (operation resource : String) (strict : Bool) (sink' : Option AuditLog)
      → is_expired later (new_capability os now r b) ≡ false
      → Covers b'.' r.operation operation
      → Covers b':' r.resource resource
      → (check os later strict r.principal operation resource (grant os now r b sink).1 sink').0
        ≡ ok true
  unfolding new_capability
  check-grant operation resource strict sink' live o c =
      (check_iff os later r.principal operation resource (grant os now r b sink).1 strict sink').1
        (record {
          cap = new_capability os now r b;
          on_list = In-grant_new os now r b sink;
          live = live;
          covers_operation = o;
          covers_resource = c;
        })

  -- A grant changes the outcome of no check, answer and log, for a different principal.
  check-grant_other :
      (principal operation resource : String) (strict : Bool) (sink' : Option AuditLog)
      → r.principal ≢ principal
      → check os later strict principal operation resource (grant os now r b sink).1 sink'
        ≡ check os later strict principal operation resource b sink'
  unfolding check
  check-grant_other principal operation resource strict sink' other =
      ap
        (λ cs.
          (if any_allows later operation resource cs
            then (
              ok true,
              log_if os later (check_event principal operation resource "allowed") sink',
            )
            else (
              (if strict then raise (capability_denied principal operation resource) else ok false),
              log_if os later (check_event principal operation resource "denied") sink',
            )))
        (caps_of-grant os now r b sink principal ∙ ground (arith, eq_iff r.principal principal))

  -- A new grant is not expired at a time exactly when that time is at most the time of the grant
  -- plus its time to live, if it has one other than 0.
  pub expiry_exact :
      (is_expired later (new_capability os now r b) ≡ false)
      ↔ ((ttl : ℕ) → r.ttl_seconds ≡ some ttl → ttl ≢ 0 → later ≤ now + ttl)
  unfolding new_capability is_expired expiry
  expiry_exact = elim (Option-cases r.ttl_seconds) [
    | inl e ↦ ((λ _ ttl q _. absurd (cc)), (λ _. ground arith))
    | inr (t, e) ↦ ((λ h ttl q nz. ground arith), (λ h. ground (arith, h t e)))
  ]

module _ (os : Platform) (now later : ℕ) (b : Broker) (sink : Option AuditLog) where
  -- After the revocation of a token on a valid broker, a principal is allowed exactly what a
  -- capability of its list with another token allows.
  pub check-revoke :
      (token principal operation resource : String) (strict : Bool) (sink' : Option AuditLog)
      → IsValid os b
      → ((check os later strict principal operation resource (revoke os now token b sink).1 sink').0
          ≡ ok true)
        ↔ ((a : Allows later operation resource (caps_of b principal)) × (a.cap.token ≢ token))
  check-revoke token principal operation resource strict sink' v =
      let (sound, complete) =
        check_iff os later principal operation resource (revoke os now token b sink).1 strict
          sink' in
      (
        (λ h.
            let a = sound h in
            let (m, n) = (In-revoke os now token b sink v principal a.cap).0 a.on_list in
            (
              record {
                cap = a.cap;
                on_list = m;
                live = a.live;
                covers_operation = a.covers_operation;
                covers_resource = a.covers_resource;
              },
              n,
            )),
        (λ h. complete (record {
          cap = h.0.cap;
          on_list = (In-revoke os now token b sink v principal h.0.cap).1 (h.0.on_list, h.1);
          live = h.0.live;
          covers_operation = h.0.covers_operation;
          covers_resource = h.0.covers_resource;
        })),
      )

  -- After revoke_all for a principal, checks for it are never allowed, and checks for others are
  -- allowed exactly as their lists allowed before.
  pub check-revoke_all :
      (principal other operation resource : String) (strict : Bool) (sink' : Option AuditLog)
      → ((check os later strict other operation resource
            (revoke_all os now principal b sink).1
            sink').0
          ≡ ok true)
        ↔ ((principal ≢ other) × Allows later operation resource (caps_of b other))
  check-revoke_all principal other operation resource strict sink' =
      let (sound, complete) =
        check_iff os later other operation resource (revoke_all os now principal b sink).1 strict
          sink' in
      elim (Bool-cases (principal == other)) [
        | inl e ↦
            let empty : caps_of (revoke_all os now principal b sink).1 other ≡ [] =
              caps_of-revoke_all os now principal b sink other ∙ rw e in
            (
              (λ h. elim (rw empty at (sound h).on_list) [ ]),
              (λ h. absurd (h.0 ((eq_iff principal other).0 e))),
            )
        | inr e ↦
            let kept : caps_of (revoke_all os now principal b sink).1 other ≡ caps_of b other =
              caps_of-revoke_all os now principal b sink other ∙ rw e in
            (
              (λ h. (
                (λ q. absurd (cc ((eq_iff principal other).1 q, e))),
                subst (Allows later operation resource) kept (sound h),
              )),
              (λ h. complete (subst (Allows later operation resource) (sym kept) h.1)),
            )
      ]
