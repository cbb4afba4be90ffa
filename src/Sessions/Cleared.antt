-- ===== src/Sessions/Cleared.antt =====
-- What it means that the wanted grants are revoked (kernel/sessions.py).
use terminal_agent.Base.{
  ℕ, ◌≤◌, ◌≡◌, refl, String, Bool, true, false, not, ◌&&◌, ◌||◌, Option, none, some, ◌==◌, any,
  arith,
}
use terminal_agent.Dict
use terminal_agent.Dict.{Dict}
use terminal_agent.Platform.{Platform}
use terminal_agent.Sessions.{revoked}
use terminal_agent.Sessions.Records.{CapabilityGrant, SessionManager, is_past, is_none, is_active}
use terminal_agent.Sessions.Query.{is_token_revoked}

-- From `before` to `after`, exactly the wanted grants that were active are revoked, and the tokens of
-- these are the ones that become revoked; no wanted grant is active from then on.
pub record IsCleared (os : Platform) (now : ℕ) (wanted : CapabilityGrant → Bool) (by : String)
    (before after : SessionManager) : Type 0 where
  pub hit :
      (k : String) (g : CapabilityGrant)
      → Dict.get before.grants k ≡ some g
      → wanted g && is_active now g ≡ true
      → Dict.get after.grants k ≡ some (revoked now by g)
  pub missed :
      (k : String) (g : CapabilityGrant)
      → Dict.get before.grants k ≡ some g
      → wanted g && is_active now g ≡ false
      → Dict.get after.grants k ≡ some g
  pub none_added : (k : String) → Dict.get before.grants k ≡ none → Dict.get after.grants k ≡ none
  pub none_active :
      (k : String) (g : CapabilityGrant) (t : ℕ)
      → Dict.get after.grants k ≡ some g
      → wanted g ≡ true
      → now ≤ t
      → is_active t g ≡ false
  pub tokens :
      (token : String)
      → is_token_revoked token after ≡ (
          is_token_revoked token before
          || any (λ e. (wanted e.1 && is_active now e.1) && e.1.token == token) before.grants)

pub past_later :
    (now t : ℕ) (revoked_at expires_at : Option ℕ)
    → now ≤ t
    → (is_none revoked_at && not (is_past now expires_at)) ≡ false
    → (is_none revoked_at && not (is_past t expires_at)) ≡ false
unfolding is_past
past_later now t none none le h = cc
past_later now t none (some e) le h = ground (arith, le, h)
past_later now t (some r) e le h = refl

-- a grant that is not active is not active later
pub inactive_later :
    (now t : ℕ) (g : CapabilityGrant) → now ≤ t → is_active now g ≡ false → is_active t g ≡ false
unfolding is_active
inactive_later now t g le h = past_later now t g.revoked_at g.expires_at le h

pub revoked_inactive :
    (now t : ℕ) (by : String) (g : CapabilityGrant) → is_active t (revoked now by g) ≡ false
unfolding is_active
revoked_inactive now t by g = refl
