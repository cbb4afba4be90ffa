-- ===== src/Sessions/Lists.antt =====
-- What `list_grants` and `list_revocations` return (kernel/sessions.py).
use terminal_agent.Base.{
  ℕ, ◌≤◌, ◌≡◌, ◌∙◌, refl, sym, String, Bool, true, Option, none, some, ◌==◌, ◌↔◌, ◌⊎◌, select, In,
  In-select, IsDescending, In-sorted, sorted-IsDescending, arith, eq_iff, Bool-cases, inl, inr,
}
use mathlib.Core.Option.{some-injective}
use terminal_agent.Dict
use terminal_agent.Dict.{Dict}
use terminal_agent.Sessions.Records.{CapabilityGrant, RevocationRecord, SessionManager, is_active}
use terminal_agent.Sessions.Query.{
  principal_passes, since_passes, grant_passes, list_grants, revocation_passes, list_revocations,
}

-- the filters, as the conditions that they stand for
abbrev pub AllowsPrincipal : Option String → String → Type 0
AllowsPrincipal principal p = (q : String) → principal ≡ some q → (q ≡ "") ⊎ (p ≡ q)

abbrev pub AllowsTime : Option ℕ → ℕ → Type 0
AllowsTime since t = (u : ℕ) → since ≡ some u → u ≤ t

principal_passes_iff :
    (principal : Option String) (p : String)
    → (principal_passes principal p ≡ true) ↔ AllowsPrincipal principal p
unfolding principal_passes
principal_passes_iff none p = (λ h q e. cc, λ h. refl)
principal_passes_iff (some q) p = elim (Bool-cases (q == "")) [
  | inl e ↦ rw e (λ h r same. inl (sym (some-injective q r same) ∙ (eq_iff q "").0 e), λ h. refl)
  | inr e ↦ rw e (
    (λ h r same. inr ((eq_iff p q).0 h ∙ some-injective q r same)),
    (λ h. elim (h q refl) [
      | inl empty ↦ absurd (cc ((eq_iff q "").1 empty, e))
      | inr same ↦ (eq_iff p q).1 same
    ]),
  )
]

since_passes_iff : (since : Option ℕ) (t : ℕ) → (since_passes since t ≡ true) ↔ AllowsTime since t
unfolding since_passes
since_passes_iff none t = (λ h u e. cc, λ h. refl)
since_passes_iff (some u) t =
    (λ h w same. rw (← some-injective u w same) (ground (arith, h)), λ h. ground (arith, h u refl))

grant_passes_iff :
    (now : ℕ) (principal : Option String) (active_only : Bool) (since : Option ℕ)
    (g : CapabilityGrant)
    → (grant_passes now principal active_only since g ≡ true) ↔ (
        AllowsPrincipal principal g.principal
        × (active_only ≡ true → is_active now g ≡ true)
        × AllowsTime since g.granted_at)
unfolding grant_passes
grant_passes_iff now principal active_only since g =
    let (p, p') = principal_passes_iff principal g.principal in
    let (t, t') = since_passes_iff since g.granted_at in
    (
      (λ h. (p (ground (arith, h)), λ a. ground (arith, h, a), t (ground (arith, h)))),
      (λ h. ground (arith, p' h.0, h.1, t' h.2)),
    )

revocation_passes_iff :
    (principal : Option String) (since : Option ℕ) (r : RevocationRecord)
    → (revocation_passes principal since r ≡ true)
      ↔ (AllowsPrincipal principal r.principal × AllowsTime since r.revoked_at)
unfolding revocation_passes
revocation_passes_iff principal since r =
    let (p, p') = principal_passes_iff principal r.principal in
    let (t, t') = since_passes_iff since r.revoked_at in
    ((λ h. (p (ground (arith, h)), t (ground (arith, h)))), (λ h. ground (arith, p' h.0, t' h.1)))

-- The list has exactly the grants that belong to the principal, if one is given that is not empty,
-- are active, if that is asked for, and were not granted before the given time, if one is given;
-- no grant on it was granted before a later one on it.
pub list_grants_lem :
    (now : ℕ) (principal : Option String) (active_only : Bool) (since : Option ℕ)
    (s : SessionManager)
    → ((g : CapabilityGrant)
        → In g (list_grants now principal active_only since s) ↔ (
            In g (Dict.values s.grants)
            × AllowsPrincipal principal g.principal
            × (active_only ≡ true → is_active now g ≡ true)
            × AllowsTime since g.granted_at))
      × IsDescending (λ g. g.granted_at) (list_grants now principal active_only since s)
unfolding list_grants
list_grants_lem now principal active_only since s =
    let p = grant_passes now principal active_only since in
    let l = select p (Dict.values s.grants) in
    (
      λ g.
          let (to, from) = In-sorted (λ x. x.granted_at) {a = g} l in
          let (to', from') = In-select {a = g} p (Dict.values s.grants) in
          let (ask, answer) = grant_passes_iff now principal active_only since g in
          (
            λ h. let (m, t) = to' (to h) in (m, (ask t).0, (ask t).1, (ask t).2),
            λ h. from (from' (h.0, answer (h.1, h.2, h.3))),
          ),
      sorted-IsDescending (λ x. x.granted_at) l,
    )

pub list_revocations_lem :
    (principal : Option String) (since : Option ℕ) (s : SessionManager)
    → ((r : RevocationRecord)
        → In r (list_revocations principal since s) ↔ (
            In r (Dict.values s.revocations)
            × AllowsPrincipal principal r.principal
            × AllowsTime since r.revoked_at))
      × IsDescending (λ r. r.revoked_at) (list_revocations principal since s)
unfolding list_revocations
list_revocations_lem principal since s =
    let p = revocation_passes principal since in
    let l = select p (Dict.values s.revocations) in
    (
      λ r.
          let (to, from) = In-sorted (λ x. x.revoked_at) {a = r} l in
          let (to', from') = In-select {a = r} p (Dict.values s.revocations) in
          let (ask, answer) = revocation_passes_iff principal since r in
          (
            λ h. let (m, t) = to' (to h) in (m, (ask t).0, (ask t).1),
            λ h. from (from' (h.0, answer (h.1, h.2))),
          ),
      sorted-IsDescending (λ x. x.revoked_at) l,
    )
