-- ===== src/Capability.antt =====
-- `Capability` and `CapabilityBroker` (kernel/capabilities.py). The parameter `sink` is the optional
-- audit log that the broker writes to; an operation returns it as it leaves it.
pub mod Allowing
pub mod Matching
pub mod Invariant
pub mod Access
pub mod Revocation
pub mod RevokeAll
pub mod Runs
use Prim.Native.String as S
use terminal_agent.Base.{
  ℕ, zero, suc, ◌+◌, ◌≡◌, String, Bool, true, false, not, ◌&&◌, Option, none, some, List, [], ◌∷◌,
  ◌++◌, ◌==◌, ltb, length, select, any, codes, starts_with, ends_with, drop_last, first, show,
  if◌then◌else◌,
}
use terminal_agent.Dict
use terminal_agent.Dict.{Dict}
use terminal_agent.Value.{Fields, field, end, str}
use terminal_agent.Platform.{Platform}
use terminal_agent.Result.{Result, ok, raise, capability_denied}
use terminal_agent.Audit.Entry.{Event, system_event}
use terminal_agent.Audit.Log.{AuditLog, log_if}

pub data CapabilityRisk : Type 0 where
  read stateful irreversible : CapabilityRisk

pub record Capability : Type 0 where
  pub token : String
  pub principal : String
  pub operation : String
  pub resource : String
  pub risk : CapabilityRisk
  pub constraints : Fields
  pub granted_at : ℕ
  pub expires_at : Option ℕ

unfoldable pub is_expired : ℕ → Capability → Bool
is_expired now c = elim c.expires_at [ none ↦ false | some t ↦ ltb t now ]

-- one of the two tests of `matches`: `sep` is "." for operations and ":" for resources
unfoldable pub pattern_matches : ℕ → String → String → Bool
pattern_matches sep pattern wanted =
    if pattern == "*"
    then true
    else if ends_with (codes pattern) (sep ∷ b'*' ∷ [])
    then starts_with (codes wanted) (drop_last (codes pattern))
    else pattern == wanted

unfoldable pub matches : Capability → String → String → Bool
matches c operation resource =
    pattern_matches b'.' c.operation operation && pattern_matches b':' c.resource resource

pub record Broker : Type 0 where
  pub capabilities : Dict (List Capability)
  pub tokens : Dict Capability
  -- how many tokens the broker has drawn
  pub drawn : ℕ

abbrev pub init : Broker
init = record { capabilities = []; tokens = []; drawn = 0 }

-- `self._capabilities.get(principal, [])`
unfoldable pub caps_of : Broker → String → List Capability
caps_of b principal = Dict.get_or b.capabilities principal []

-- the keyword arguments of `grant`
pub record Request : Type 0 where
  pub principal : String
  pub operation : String
  pub resource : String
  pub risk : CapabilityRisk
  pub constraints : Fields
  pub ttl_seconds : Option ℕ

-- `time.time() + ttl_seconds if ttl_seconds else None`
unfoldable pub expiry : ℕ → Option ℕ → Option ℕ
expiry now none = none
expiry now (some zero) = none
expiry now (some (suc ttl)) = some (now + suc ttl)

-- the entry that a check writes
abbrev pub check_event : String → String → String → String → Event
check_event principal operation resource result =
    system_event "capability.check" principal resource (field "operation" (str operation) end)
      result

-- the loop of `check`
unfoldable pub any_allows : ℕ → String → String → List Capability → Bool
any_allows now operation resource [] = false
any_allows now operation resource (c ∷ cs) =
    let rest = any_allows now operation resource cs in
    if is_expired now c then rest else if matches c operation resource then true else rest

module _ (os : Platform) (now : ℕ) where
  unfoldable pub new_capability : Request → Broker → Capability
  new_capability r b = record {
    token = os.token_urlsafe b.drawn;
    principal = r.principal;
    operation = r.operation;
    resource = r.resource;
    risk = r.risk;
    constraints = r.constraints;
    granted_at = now;
    expires_at = expiry now r.ttl_seconds;
  }

  unfoldable pub grant : Request → Broker → Option AuditLog → Capability × Broker × Option AuditLog
  unfolding new_capability
  grant r b sink =
      let cap = new_capability r b in
      (
        cap,
        record b {
          capabilities = Dict.put b.capabilities r.principal (caps_of b r.principal ++ cap ∷ []);
          tokens = Dict.put b.tokens cap.token cap;
          drawn = b.drawn + 1;
        },
        log_if os now
            (system_event "capability.grant" "system" (S.◌++◌ "cap:" (first 8 cap.token))
              (field "to" (str r.principal)
                (field "operation" (str r.operation) (field "resource" (str r.resource) end)))
              "granted")
            sink,
      )

  unfoldable pub check :
      (raise_on_deny : Bool)
      → (principal operation resource : String) → Broker
      → Option AuditLog
      → Result Bool × Option AuditLog
  check raise_on_deny principal operation resource b sink =
      if any_allows now operation resource (caps_of b principal)
      then (ok true, log_if os now (check_event principal operation resource "allowed") sink)
      else (
        (if raise_on_deny
            then raise (capability_denied principal operation resource)
            else ok false),
        log_if os now (check_event principal operation resource "denied") sink,
      )

  unfoldable pub revoke : String → Broker → Option AuditLog → Bool × Broker × Option AuditLog
  revoke token b sink = elim (Dict.get b.tokens token) [
    | none ↦ (false, b, sink)
    | some cap ↦ (
      true,
      record b {
        tokens = Dict.remove b.tokens token;
        capabilities =
            if Dict.has b.capabilities cap.principal
            then Dict.put b.capabilities cap.principal
                (select (λ c. not (c.token == token)) (caps_of b cap.principal))
            else b.capabilities;
      },
      log_if os now
          (system_event "capability.revoke" "system" (S.◌++◌ "cap:" (first 8 token))
            (field "was_for" (str cap.principal) end) "revoked")
          sink,
    )
  ]

  -- `for cap in caps: self._tokens.pop(cap.token, None)`
  unfoldable pub forget : Dict Capability → List Capability → Dict Capability
  forget tokens [] = tokens
  forget tokens (c ∷ cs) = forget (Dict.remove tokens c.token) cs

  unfoldable pub revoke_all : String → Broker → Option AuditLog → ℕ × Broker × Option AuditLog
  unfolding forget
  revoke_all principal b sink =
      let caps = caps_of b principal in
      (
        length caps,
        record b {
          capabilities = Dict.remove b.capabilities principal;
          tokens = forget b.tokens caps;
        },
        (if ltb 0 (length caps)
            then log_if os now
                (system_event "capability.revoke_all" "system" principal end
                  (S.◌++◌ "revoked:" (show (length caps))))
                sink
            else sink),
      )

  unfoldable pub list_capabilities : String → Broker → List Capability
  list_capabilities principal b = select (λ c. not (is_expired now c)) (caps_of b principal)

  -- `check` with `raise_on_deny`, its answer dropped
  unfoldable pub require :
      (principal operation resource : String)
      → Broker
      → Option AuditLog
      → Result Bool × Option AuditLog
  unfolding check
  require principal operation resource b sink = check true principal operation resource b sink
