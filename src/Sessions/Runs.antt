-- ===== src/Sessions/Runs.antt =====
-- Whatever is called on the session manager, and however often the process is restarted: the
-- invariant holds, and a revoked token stays revoked (kernel/sessions.py).
use terminal_agent.Base.{
  ℕ, ◌<◌, ◌≤◌, ◌≡◌, ◌∙◌, refl, sym, ap, subst, String, Bool, true, some, List, [], ◌∷◌, ◌==◌, any,
  arith, Bool-cases, Option-cases, inl, inr,
}
use terminal_agent.Dict
use terminal_agent.Dict.{Dict}
use terminal_agent.Platform.{Platform}
use terminal_agent.Result.{Result}
use terminal_agent.Sessions.{
  SessionRequest, GrantRequest, init, restart, persist_session, persist_grant, create_session,
  record_grant, revoke_grant,
}
use terminal_agent.Sessions.Records.{
  CapabilityGrant, SessionManager, is_expired, is_active, is_persistent, is_always,
}
use terminal_agent.Sessions.Mirrors.{later-Mirrors}
use terminal_agent.Sessions.Valid.{
  revocation_id_new, create_session-Valid, record_grant-Valid, after_revocation,
  revoke_grant_active, after_revocation-Valid,
}
use terminal_agent.Sessions.Invariant.{Valid, NoRepeats, restart-Valid}
use terminal_agent.Sessions.Ending.{end_session, get_session}
use terminal_agent.Sessions.Query.{is_token_revoked}
use terminal_agent.Sessions.Sweep.{revoke_grant-drawn_active}
use terminal_agent.Sessions.Swept.{after_revocation-tokens}
use terminal_agent.Sessions.Ends.{
  revoke_all_for_principal-IsCleared, end_session-IsEnded, get_session-IsEnded,
}
use terminal_agent.Sessions.Cleared.{IsCleared}
use terminal_agent.Sessions.Calls.{
  Call, Keeps, step, run, create_session-drawn, record_grant-drawn, run-drawn, creating, ending,
  getting, recording, revoking, revoking_all, restarting,
}

module _ (os : Platform) {bound : ℕ} (apart : NoRepeats os bound) where
  revoked_more :
      {os' : Platform} {now : ℕ} {wanted : CapabilityGrant → Bool} {by : String}
      {s after : SessionManager}
      → IsCleared os' now wanted by s after
      → (t : String) → is_token_revoked t s ≡ true
      → is_token_revoked t after ≡ true
  revoked_more c t h = c.tokens t ∙ rw h refl

  create_session-Keeps :
      (now : ℕ) (q : SessionRequest) (s : SessionManager)
      → Valid os bound s
      → s.drawn < bound
      → Keeps os bound s (create_session os now q s).1
  unfolding create_session persist_session is_token_revoked
  create_session-Keeps now q s v below = (
    create_session-Valid os apart now s v q below,
    λ t h. elim (Bool-cases (is_persistent q.session_type)) [ inl e ↦ rw e h | inr e ↦ rw e h ],
  )

  record_grant-Keeps :
      (now : ℕ) (q : GrantRequest) (s : SessionManager)
      → Valid os bound s
      → s.drawn < bound
      → Keeps os bound s (record_grant os now q s).1
  unfolding record_grant persist_grant is_token_revoked
  record_grant-Keeps now q s v below = (
    record_grant-Valid os apart now s v q below,
    λ t h. elim (Bool-cases (is_always q.scope)) [ inl e ↦ rw e h | inr e ↦ rw e h ],
  )

  end_session-Keeps :
      (now : ℕ) (key : String) (s : SessionManager)
      → Valid os bound s
      → (end_session os now key s).1.drawn ≤ bound
      → Keeps os bound s (end_session os now key s).1
  unfolding end_session
  end_session-Keeps now key s v room = elim (Bool-cases (Dict.has s.sessions key)) [
    | inl e ↦ let i = end_session-IsEnded os apart now key s v e room in (i.4, revoked_more i.3)
    | inr e ↦ rw (end_session, e) (v, λ t h. h)
  ]

  get_session-Keeps :
      (now : ℕ) (key : String) (s : SessionManager)
      → Valid os bound s
      → (get_session os now key s).1.drawn ≤ bound
      → Keeps os bound s (get_session os now key s).1
  unfolding get_session
  get_session-Keeps now key s v room = elim (Option-cases (Dict.get s.sessions key)) [
    | inl e ↦ rw (get_session, e) (v, λ t h. h)
    | inr (x, e) ↦ elim (Bool-cases (is_expired now x)) [
      | inl q ↦
          let (_, i) = get_session-IsEnded os apart now key x s v e q room in
          (i.4, revoked_more i.3)
      | inr q ↦ rw (get_session, e, q) (v, λ t h. h)
    ]
  ]

  pub after_revocation-Keeps :
      (now : ℕ) (key by reason : String) (g : CapabilityGrant) (s : SessionManager)
      → Valid os bound s
      → s.drawn < bound
      → Dict.get s.grants key ≡ some g
      → Keeps os bound s (after_revocation os now key by reason g s)
  unfolding after_revocation
  after_revocation-Keeps now key by reason g s v below got = (
    record {
      sessions = later-Mirrors (omega arith) v.sessions;
      rest = after_revocation-Valid os apart now s v.rest key by reason g below got;
    },
    λ t h.
        after_revocation-tokens os now key by reason g s
          (revocation_id_new os apart now s v.rest below) t
        ∙ rw h refl,
  )

  restart-Keeps : (s : SessionManager) → Valid os bound s → Keeps os bound s (restart s)
  unfolding restart init is_token_revoked
  restart-Keeps s v = (
    restart-Valid os bound s v,
    λ t h.
        ap (any (λ e. e.1.token == t))
          ((restart-Valid os bound s v).rest.loaded ∙ sym v.rest.loaded)
        ∙ h,
  )

  revoke_grant-Keeps :
      (now : ℕ) (key by reason : String) (s : SessionManager)
      → Valid os bound s
      → (revoke_grant os now key by reason s).1.drawn ≤ bound
      → Keeps os bound s (revoke_grant os now key by reason s).1
  unfolding revoke_grant
  revoke_grant-Keeps now key by reason s v room = elim (Option-cases (Dict.get s.grants key)) [
    | inl e ↦ rw (revoke_grant, e) (v, λ t h. h)
    | inr (g, e) ↦ elim (Bool-cases (is_active now g)) [
      | inl q ↦
          let below : s.drawn < bound =
            omega (arith, room, revoke_grant-drawn_active os now key by reason g s e q) in
          subst (λ (r : Result Bool × SessionManager). Keeps os bound s r.1)
            (sym (revoke_grant_active os apart now s v.rest key by reason g below e q))
            (after_revocation-Keeps now key by reason g s v below e)
      | inr q ↦ rw (revoke_grant, e, q) (v, λ t h. h)
    ]
  ]

  step-Keeps :
      (call : Call) (s : SessionManager)
      → Valid os bound s
      → (step os call s).drawn ≤ bound
      → Keeps os bound s (step os call s)
  unfolding step
  step-Keeps (creating now q) s v room =
      create_session-Keeps now q s v (omega (arith, room, create_session-drawn os now q s))
  step-Keeps (ending now key) s v room = end_session-Keeps now key s v room
  step-Keeps (getting now key) s v room = get_session-Keeps now key s v room
  step-Keeps (recording now q) s v room =
      record_grant-Keeps now q s v (omega (arith, room, record_grant-drawn os now q s))
  step-Keeps (revoking now key by reason) s v room = revoke_grant-Keeps now key by reason s v room
  step-Keeps (revoking_all now principal by) s v room =
      let (_, c, valid) = revoke_all_for_principal-IsCleared os apart now principal by s v room in
      (valid, revoked_more c)
  step-Keeps restarting s v room = restart-Keeps s v

  -- From a valid state of the session manager and its database, after any calls and restarts in
  -- any order, if no draw of eight hexadecimal digits repeats an earlier one: the state is valid,
  -- that is, the dicts and the tables agree on what is to survive; and a token that was revoked is
  -- still revoked.
  pub run-Keeps :
      (calls : List Call) (s : SessionManager)
      → Valid os bound s
      → (run os calls s).drawn ≤ bound
      → Valid os bound (run os calls s)
        × ((t : String) → is_token_revoked t s ≡ true → is_token_revoked t (run os calls s) ≡ true)
  unfolding run
  run-Keeps [] s v room = (v, λ t h. h)
  run-Keeps (call ∷ calls) s v room =
      let (v', kept) =
        step-Keeps call s v (omega (arith, room, run-drawn os calls (step os call s))) in
      let (v'', kept') = run-Keeps calls (step os call s) v' room in
      (v'', λ t h. kept' t (kept t h))
