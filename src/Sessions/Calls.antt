-- ===== src/Sessions/Calls.antt =====
-- The calls of a session manager, and the identities that they draw (kernel/sessions.py).
use terminal_agent.Base.{
  ℕ, ◌+◌, ◌≤◌, ◌≡◌, refl, String, true, List, [], ◌∷◌, arith, Bool-cases, Option-cases, inl, inr,
}
use terminal_agent.Dict
use terminal_agent.Dict.{Dict}
use terminal_agent.Platform.{Platform}
use terminal_agent.Sessions.{
  SessionRequest, GrantRequest, init, restart, persist_session, persist_grant, create_session,
  record_grant, revoke_grant,
}
use terminal_agent.Sessions.Records.{SessionManager, is_expired, is_persistent, is_always}
use terminal_agent.Sessions.Invariant.{Valid}
use terminal_agent.Sessions.Ending.{
  revoke_each, of_principal, in_session, end_session, get_session, revoke_all_for_principal,
}
use terminal_agent.Sessions.Query.{is_token_revoked}
use terminal_agent.Sessions.Sweep.{
  revoke_each-drawn, revoke_grant-drawn, forget_session-drawn, after_end-drawn,
}

-- the calls, each at its time
pub data Call : Type 0 where
  creating : ℕ → SessionRequest → Call
  ending : ℕ → String → Call
  getting : ℕ → String → Call
  recording : ℕ → GrantRequest → Call
  revoking : ℕ → String → String → String → Call
  revoking_all : ℕ → String → String → Call
  restarting : Call

-- `t` is revoked afterwards if it was before, and the invariant holds
abbrev pub Keeps : Platform → ℕ → SessionManager → SessionManager → Type 0
Keeps os bound s after =
    Valid os bound after
    × ((t : String) → is_token_revoked t s ≡ true → is_token_revoked t after ≡ true)

module _ (os : Platform) where
  unfoldable pub step : Call → SessionManager → SessionManager
  step (creating now q) s = (create_session os now q s).1
  step (ending now key) s = (end_session os now key s).1
  step (getting now key) s = (get_session os now key s).1
  step (recording now q) s = (record_grant os now q s).1
  step (revoking now key by reason) s = (revoke_grant os now key by reason s).1
  step (revoking_all now principal by) s = (revoke_all_for_principal os now principal by s).1
  step restarting s = restart s

  unfoldable pub run : List Call → SessionManager → SessionManager
  unfolding step
  run [] s = s
  run (call ∷ calls) s = run calls (step call s)

  pub create_session-drawn :
      (now : ℕ) (q : SessionRequest) (s : SessionManager)
      → (create_session os now q s).1.drawn ≡ s.drawn + 1
  unfolding create_session persist_session
  create_session-drawn now q s = elim (Bool-cases (is_persistent q.session_type)) [
    | inl e ↦ rw e refl
    | inr e ↦ rw e refl
  ]

  pub record_grant-drawn :
      (now : ℕ) (q : GrantRequest) (s : SessionManager)
      → (record_grant os now q s).1.drawn ≡ s.drawn + 1
  unfolding record_grant persist_grant
  record_grant-drawn now q s = elim (Bool-cases (is_always q.scope)) [
    | inl e ↦ rw e refl
    | inr e ↦ rw e refl
  ]

  pub end_session-drawn :
      (now : ℕ) (key : String) (s : SessionManager) → s.drawn ≤ (end_session os now key s).1.drawn
  unfolding end_session
  end_session-drawn now key s = elim (Bool-cases (Dict.has s.sessions key)) [
    | inl e ↦
        rw (end_session, e)
          (omega (
            arith,
            forget_session-drawn key (
                revoke_each os now (in_session key) "session_end" (Dict.keys s.grants)
                  (record s { sessions = Dict.remove s.sessions key })),
            revoke_each-drawn os now (in_session key) "session_end" (Dict.keys s.grants)
                (record s { sessions = Dict.remove s.sessions key }),
          ))
    | inr e ↦ rw (end_session, e) (omega arith)
  ]

  pub get_session-drawn :
      (now : ℕ) (key : String) (s : SessionManager) → s.drawn ≤ (get_session os now key s).1.drawn
  unfolding get_session
  get_session-drawn now key s = elim (Option-cases (Dict.get s.sessions key)) [
    | inl e ↦ rw (get_session, e) (omega arith)
    | inr (x, e) ↦ elim (Bool-cases (is_expired now x)) [
      | inl q ↦
          rw (get_session, e, q)
            (omega (arith, after_end-drawn (end_session os now key s), end_session-drawn now key s))
      | inr q ↦ rw (get_session, e, q) (omega arith)
    ]
  ]

  pub step-drawn : (call : Call) (s : SessionManager) → s.drawn ≤ (step call s).drawn
  unfolding step restart init revoke_all_for_principal
  step-drawn (creating now q) s = omega (arith, create_session-drawn now q s)
  step-drawn (ending now key) s = end_session-drawn now key s
  step-drawn (getting now key) s = get_session-drawn now key s
  step-drawn (recording now q) s = omega (arith, record_grant-drawn now q s)
  step-drawn (revoking now key by reason) s = revoke_grant-drawn os now key by reason s
  step-drawn (revoking_all now principal by) s =
      revoke_each-drawn os now (of_principal principal) by (Dict.keys s.grants) s
  step-drawn restarting s = omega arith

  pub run-drawn : (calls : List Call) (s : SessionManager) → s.drawn ≤ (run calls s).drawn
  unfolding run
  run-drawn [] s = omega arith
  run-drawn (call ∷ calls) s = omega (arith, step-drawn call s, run-drawn calls (step call s))
