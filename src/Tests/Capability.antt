-- ===== src/Tests/Capability.antt =====
-- The capability theorems at a broker with one grant of `tab.*` (kernel/capabilities.py).
use terminal_agent.Base.{ℕ, ◌≤◌, ◌+◌, ◌≡◌, ◌≢◌, ◌↔◌, refl, true, false, none, some, [], ◌∷◌, codes}
use terminal_agent.Result.{ok}
use terminal_agent.Capability as C
use terminal_agent.Capability.{
  Broker, Capability, caps_of, check, check_event, grant, is_expired, matches, new_capability, init,
  expiry,
}
use terminal_agent.Capability.Matching.{Covers, family, matches_iff}
use terminal_agent.Capability.Invariant.{IsValid, init-IsValid, grant-IsValid}
use terminal_agent.Capability.Access.{check_iff, expiry_exact, check-revoke, check-revoke_all}
use terminal_agent.Capability.Allowing.{Allows}
use terminal_agent.Capability.Runs.{Call, revoke, run-IsValid}
use terminal_agent.Capability.Runs as R
use terminal_agent.Tests.Data.{counting, log, tab_request, broker}

broker-IsValid : IsValid counting broker
broker-IsValid = grant-IsValid counting 100 tab_request init (some log) (init-IsValid counting)

tab_cap : Capability
tab_cap = new_capability counting 100 tab_request init

Covers-tab : Covers b'.' "tab.*" "tab.read"
Covers-tab = family (codes "tab") (codes "read") refl refl

Covers-all : Covers b':' "*" "tab:1"
Covers-all = Covers.anything refl

still_live : is_expired 130 (new_capability counting 100 tab_request init) ≡ false
unfolding is_expired new_capability expiry
still_live = refl

check_iff_example :
    ((check counting 130 true "agent" "tab.read" "tab:1" broker (some log)).0 ≡ ok true)
    ↔ Allows 130 "tab.read" "tab:1" (caps_of broker "agent")
check_iff_example = check_iff counting 130 "agent" "tab.read" "tab:1" broker true (some log)

expiry_exact_example :
    (is_expired 130 (new_capability counting 100 tab_request init) ≡ false)
    ↔ ((ttl : ℕ) → some 60 ≡ some ttl → ttl ≢ 0 → 130 ≤ 100 + ttl)
expiry_exact_example = expiry_exact counting tab_request init (some log) 100 130

check-revoke_example :
    ((check counting 130 true "agent" "tab.read" "tab:1"
        (C.revoke counting 120 "0" broker none).1
        none).0
      ≡ ok true)
    ↔ ((a : Allows 130 "tab.read" "tab:1" (caps_of broker "agent")) × (a.cap.token ≢ "0"))
check-revoke_example =
    check-revoke counting 120 130 broker none "0" "agent" "tab.read" "tab:1" true none
      broker-IsValid

check-revoke_all_example :
    ((check counting 130 true "agent" "tab.read" "tab:1"
        (C.revoke_all counting 120 "agent" broker none).1
        none).0
      ≡ ok true)
    ↔ ((tab_request.principal ≢ "agent") × Allows 130 "tab.read" "tab:1" (caps_of broker "agent"))
check-revoke_all_example =
    check-revoke_all counting 120 130 broker none "agent" "agent" "tab.read" "tab:1" true none

matches_iff_example :
    (matches tab_cap "tab.read" "tab:1" ≡ true)
    ↔ (Covers b'.' tab_cap.operation "tab.read" × Covers b':' tab_cap.resource "tab:1")
matches_iff_example = matches_iff tab_cap "tab.read" "tab:1"

run-IsValid_example :
    IsValid counting (R.run counting (Call.grant 100 tab_request ∷ revoke 120 "0" ∷ []) init none).0
run-IsValid_example = run-IsValid counting (Call.grant 100 tab_request ∷ revoke 120 "0" ∷ []) none
