-- ===== src/Terminal/Checks.antt =====
-- What the checks of the terminal say and do (`_cmd_validate`, `_cmd_caps` and `_cmd_run` of
-- kernel/ui/terminal.py).
use terminal_agent.Base.{
  ℕ, ◌≡◌, ◌∙◌, refl, sym, ap, subst, String, true, false, Option, List, [], ◌∷◌, In, here, there,
  Bool-cases, inl, inr,
}
use terminal_agent.Platform.{Platform}
use terminal_agent.Audit.Log.{AuditLog}
use terminal_agent.Capability as C
use terminal_agent.Capability.{any_allows, caps_of}
use terminal_agent.Runtime.{Browser}
use terminal_agent.Runtime.Sandbox.{Parsed, validate_code}
use terminal_agent.Terminal.{
  CodeBuffer, is_empty, validate_buffer, is_yes, missing_caps, preview_caps,
}
use terminal_agent.Terminal.Analysis.{Required}

-- a buffer that is marked as valid is valid
abbrev pub IsChecked : (String → Parsed) → CodeBuffer → Type 0
IsChecked parse c = c.validated ≡ true → validate_code parse c.source ≡ []

pub is_empty_sound {ℓ} : {A : Type ℓ} (l : List A) → is_empty l ≡ true → l ≡ []
unfolding is_empty
is_empty_sound [] h = refl
is_empty_sound (x ∷ l) h = cc

pub is_empty_complete {ℓ} : {A : Type ℓ} (l : List A) → is_empty l ≡ false → ¬ (l ≡ [])
unfolding is_empty
is_empty_complete [] h e = absurd (cc h)
is_empty_complete (x ∷ l) h e = absurd (cc e)

pub validate_buffer-IsChecked :
    (parse : String → Parsed) (c : CodeBuffer) → IsChecked parse (validate_buffer parse c)
unfolding validate_buffer
validate_buffer-IsChecked parse c h = is_empty_sound (validate_code parse c.source) h

-- the capabilities of a list are all held
abbrev pub AreHeld : ℕ → String → List Required → Browser → Type 0
AreHeld now principal required b =
    (cap : Required)
    → In cap required
    → any_allows now cap.operation cap.resource (caps_of b.caps principal) ≡ true

module _ (os : Platform) (now : ℕ) where
  -- checks change the log only
  pub missing_caps-audit :
      (principal : String) (caps : List Required) (b : Browser)
      → (sink : Option AuditLog) × ((missing_caps os now principal caps b).1
          ≡ record b { audit = sink })
  unfolding missing_caps
  missing_caps-audit principal [] b = (b.audit, refl)
  missing_caps-audit principal (cap ∷ caps) b =
      let sink = (C.check os now false principal cap.operation cap.resource b.caps b.audit).1 in
      missing_caps-audit principal caps (record b { audit = sink })

  check_yes :
      (principal operation resource : String) (b : C.Broker) (sink : Option AuditLog)
      → is_yes (C.check os now false principal operation resource b sink).0
        ≡ any_allows now operation resource (caps_of b principal)
  unfolding C.check is_yes
  check_yes principal operation resource b sink =
      elim (Bool-cases (any_allows now operation resource (caps_of b principal))) [
        | inl e ↦ rw (C.check, e) refl
        | inr e ↦ rw (C.check, e) refl
      ]

  pub missing_caps-AreHeld :
      (principal : String) (caps : List Required) (b : Browser)
      → (missing_caps os now principal caps b).0 ≡ []
      → AreHeld now principal caps b
  unfolding missing_caps
  missing_caps-AreHeld principal [] b h = λ other m. elim m [ ]
  missing_caps-AreHeld principal (cap ∷ caps) b h =
      let yes = check_yes principal cap.operation cap.resource b.caps b.audit in
      let sink = (C.check os now false principal cap.operation cap.resource b.caps b.audit).1 in
      elim (Bool-cases (any_allows now cap.operation cap.resource (caps_of b.caps principal))) [
        | inl e ↦ λ other m. elim m [
          | here q ↦
              subst
                (λ (x : Required).
                  any_allows now x.operation x.resource (caps_of b.caps principal) ≡ true)
                (sym q) e
          | there k ↦
              missing_caps-AreHeld principal caps (record b { audit = sink }) (rw (yes ∙ e) at h)
                other k
        ]
        | inr e ↦ absurd (cc (rw (yes ∙ e) at h))
      ]

  pub AreHeld-missing_caps :
      (principal : String) (caps : List Required) (b : Browser)
      → AreHeld now principal caps b
      → (missing_caps os now principal caps b).0 ≡ []
  unfolding missing_caps
  AreHeld-missing_caps principal [] b held = refl
  AreHeld-missing_caps principal (cap ∷ caps) b held =
      let yes = check_yes principal cap.operation cap.resource b.caps b.audit in
      let sink = (C.check os now false principal cap.operation cap.resource b.caps b.audit).1 in
      rw (yes ∙ held cap (here refl)) (
        AreHeld-missing_caps principal caps (record b { audit = sink })
          (λ other m. held other (there m)))

  -- a preview changes the log only
  pub preview_caps-audit :
      (required : List Required) (c : CodeBuffer) (b : Browser)
      → (sink : Option AuditLog) × ((preview_caps os now required c b).1
          ≡ record b { audit = sink })
  unfolding preview_caps
  preview_caps-audit required c b = elim (Bool-cases (is_empty required)) [
    | inl e ↦ (b.audit, rw e refl)
    | inr e ↦
        let (one, first) = missing_caps-audit c.principal required b in
        let (two, second) = missing_caps-audit c.principal required (record b { audit = one }) in
        (
          two,
          rw e
              (ap (λ (x : Browser). (missing_caps os now c.principal required x).1) first ∙ second),
        )
  ]
