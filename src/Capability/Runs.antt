-- ===== src/Capability/Runs.antt =====
-- Sequences of calls on the broker (kernel/capabilities.py).
use terminal_agent.Base.{ℕ, String, Option, List, [], ◌∷◌}
use terminal_agent.Platform.{Platform}
use terminal_agent.Audit.Log.{AuditLog}
use terminal_agent.Capability
use terminal_agent.Capability.{Capability, Broker, Request, caps_of, init}
use terminal_agent.Capability.Invariant.{IsValid, init-IsValid, grant-IsValid}
use terminal_agent.Capability.Revocation.{revoke-IsValid}
use terminal_agent.Capability.RevokeAll.{revoke_all-IsValid}

-- the calls that change a broker, each at its time
pub data Call : Type 0 where
  grant : ℕ → Request → Call
  revoke : ℕ → String → Call
  revoke_all : ℕ → String → Call

module _ (os : Platform) where
  unfoldable pub step : Call → Broker → Option AuditLog → Broker × Option AuditLog
  step (grant now r) b sink = let (_, b', sink') = Capability.grant os now r b sink in (b', sink')
  step (revoke now t) b sink = let (_, b', sink') = Capability.revoke os now t b sink in (b', sink')
  step (revoke_all now p) b sink =
      let (_, b', sink') = Capability.revoke_all os now p b sink in (b', sink')

  unfoldable pub run : List Call → Broker → Option AuditLog → Broker × Option AuditLog
  unfolding step
  run [] b sink = (b, sink)
  run (c ∷ cs) b sink = let (b', sink') = step c b sink in run cs b' sink'

  run_keeps :
      (cs : List Call) (b : Broker) (sink : Option AuditLog)
      → IsValid os b
      → IsValid os (run cs b sink).0
  unfolding run
  run_keeps [] b sink v = v
  run_keeps (grant now r ∷ cs) b sink v = run_keeps cs _ _ (grant-IsValid os now r b sink v)
  run_keeps (revoke now t ∷ cs) b sink v = run_keeps cs _ _ (revoke-IsValid os now t b sink v)
  run_keeps (revoke_all now p ∷ cs) b sink v =
      run_keeps cs _ _ (revoke_all-IsValid os now p b sink v)

  -- After any grants and revocations on a new broker, the lists by principal and the index by
  -- token hold the same capabilities, each under its own principal and its own, once drawn, token.
  pub run-IsValid : (cs : List Call) (sink : Option AuditLog) → IsValid os (run cs init sink).0
  run-IsValid cs sink = run_keeps cs init sink (init-IsValid os)
