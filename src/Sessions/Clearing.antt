-- ===== src/Sessions/Clearing.antt =====
-- The loops over grants revoke the wanted ones (kernel/sessions.py).
use terminal_agent.Base.{
  ℕ, ◌≤◌, ◌≡◌, ◌∙◌, refl, sym, subst, String, Bool, false, ◌&&◌, arith, Bool-cases, Option-cases,
  inl, inr,
}
use mathlib.Core.Option.{some-injective}
use terminal_agent.Dict
use terminal_agent.Dict.{Dict}
use terminal_agent.Platform.{Platform}
use terminal_agent.Result.{Result}
use terminal_agent.Sessions.{session_id, revoked}
use terminal_agent.Sessions.Records.{CapabilityGrant, SessionManager, is_active, is_persistent}
use terminal_agent.Sessions.Mirrors.{Mirrors, later-Mirrors}
use terminal_agent.Sessions.Invariant.{Valid, ValidGrants, NoRepeats}
use terminal_agent.Sessions.Ending.{revoke_each}
use terminal_agent.Sessions.Swept.{Swept, revoke_each-Swept}
use terminal_agent.Sessions.Cleared.{IsCleared, inactive_later, revoked_inactive}

module _ (os : Platform) {bound : ℕ} (apart : NoRepeats os bound) (now : ℕ) where
  module _ (wanted : CapabilityGrant → Bool) (by : String) (s : SessionManager) where
    pub Swept-IsCleared :
        (r : Result ℕ × SessionManager)
        → Swept os apart now wanted by s.grants s r
        → IsCleared os now wanted by s r.1
    Swept-IsCleared r w = record {
      hit = λ k g got falls_g. w.swept k g got ∙ rw falls_g refl;
      missed = λ k g got stays. w.swept k g got ∙ rw stays refl;
      none_added = λ k gone. w.others k gone ∙ gone;
      none_active = λ k g t got wants le. elim (Option-cases (Dict.get s.grants k)) [
        | inl e ↦ absurd (cc (w.others k e, e, got))
        | inr (h, e) ↦ elim (Bool-cases (wanted h && is_active now h)) [
          | inl q ↦
              let same : revoked now by h ≡ g =
                some-injective (revoked now by h) g (sym (w.swept k h e ∙ rw q refl) ∙ got) in
              subst (λ (x : CapabilityGrant). is_active t x ≡ false) same
                (revoked_inactive now t by h)
          | inr q ↦
              let same : h ≡ g = some-injective h g (sym (w.swept k h e ∙ rw q refl) ∙ got) in
              let over : wanted g && is_active now g ≡ false =
                subst (λ (x : CapabilityGrant). wanted x && is_active now x ≡ false) same q in
              inactive_later now t g le (ground (arith, over, wants))
        ]
      ];
      tokens = w.tokens;
    }

    -- the loop over all grants
    pub all_Swept :
        ValidGrants os bound s
        → (revoke_each os now wanted by (Dict.keys s.grants) s).1.drawn ≤ bound
        → Swept os apart now wanted by s.grants s
            (revoke_each os now wanted by (Dict.keys s.grants) s)
    all_Swept v room =
        revoke_each-Swept os apart now wanted by s.grants s v v.grants.dict-Distinct (λ k g h. h)
          room

  -- the sessions are as they were
  pub Swept-Valid :
      {wanted : CapabilityGrant → Bool} {by : String} (s : SessionManager)
      (r : Result ℕ × SessionManager)
      → s.drawn ≤ r.1.drawn
      → Mirrors
          (λ x. x.id)
          (λ x. is_persistent x.type)
          (session_id os)
          bound
          s.drawn
          s.sessions
          s.db.sessions
      → Swept os apart now wanted by s.grants s r
      → Valid os bound r.1
  Swept-Valid s r more m w = record {
    sessions = rw (w.sessions, w.db_sessions) (later-Mirrors more m);
    rest = w.valid;
  }
