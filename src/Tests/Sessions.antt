-- ===== src/Tests/Sessions.antt =====
-- The theorems on sessions at a database with a persistent session and three grants
-- (kernel/sessions.py).
use terminal_agent.Base.{
  show, show_inj, ◌+◌, ◌≡◌, refl, String, true, ◌&&◌, none, some, List, [], ◌∷◌, ◌↔◌, select, In,
  length, IsDescending, arith,
}
use terminal_agent.Dict
use terminal_agent.Dict.{Dict}
use terminal_agent.Platform.{Platform}
use terminal_agent.Result.{ok, raise, integrity_error}
use terminal_agent.Sessions.{
  SessionRequest, GrantRequest, replace, init, restart, empty_database, session_id, grant_id,
  revocation_id, persist_session, persist_grant, persist_revocation, new_session, create_session,
  new_grant, record_grant, revoked, new_revocation, after_insert, revoke_grant,
}
use terminal_agent.Sessions.Records.{
  persistent, GrantScope, once, always, CapabilityGrant, SessionManager, is_past, is_active,
  is_persistent, is_always,
}
use terminal_agent.Value.{end}
use terminal_agent.Tests.Data.{counting}
use terminal_agent.Sessions.Invariant.{Valid, NoRepeats, init-Valid}
use terminal_agent.Sessions.Ending.{
  add_count, and_then, revoke_one, revoke_each, in_session, of_principal, forget_session,
  end_session, revoke_all_for_principal,
}
use terminal_agent.Sessions.Query.{is_token_revoked, list_grants}
use terminal_agent.Sessions.Ends.{IsEnded, end_session-IsEnded, revoke_all_for_principal-IsCleared}
use terminal_agent.Sessions.Cleared.{IsCleared}
use terminal_agent.Sessions.Runs.{run-Keeps}
use terminal_agent.Sessions.Calls.{Call, creating, recording, revoking, run, step}
use terminal_agent.Sessions.Restart.{
  IsRevoked, revoke_grant-IsRevoked, restart_lem, revoke_grant_collision,
}
use terminal_agent.Sessions.Tables.{kept}
use terminal_agent.Sessions.Lists.{AllowsPrincipal, AllowsTime, list_grants_lem}

-- draws that never repeat
abbrev drawing : Platform
drawing = record {
  uuid4 = show;
  uuid4_inj = show_inj;
  token_urlsafe = show;
  token_urlsafe_inj = show_inj;
  uuid4_hex8 = show;
  sha256_hex8 = λ s. "00c0ffee";
  json_size = λ v. 2;
}

drawing-NoRepeats : NoRepeats drawing 20
drawing-NoRepeats m n _ _ h = show_inj m n h

abbrev session_request : SessionRequest
session_request = record {
  principal = "agent";
  session_type = persistent;
  workspace_id = none;
  ttl_seconds = some 100;
  metadata = end;
}

abbrev grant_request : String → GrantScope → GrantRequest
grant_request token scope = record {
  token = token;
  principal = "agent";
  operation = "tab.*";
  resource = "*";
  scope = scope;
  granted_by = "user";
  session_id = some "session:0";
  expires_at = none;
  metadata = end;
}

abbrev calls : List Call
calls =
    creating 10 session_request
    ∷ recording 11 (grant_request "t1" always)
    ∷ recording 12 (grant_request "t2" once)
    ∷ []

abbrev start : SessionManager
start = init empty_database 0

abbrev state : SessionManager
state = run drawing calls start

run-Keeps_example :
    Valid drawing 20 state
    × ((t : String) → is_token_revoked t start ≡ true → is_token_revoked t state ≡ true)
unfolding run step create_session record_grant init new_session new_grant persist_session
    persist_grant
run-Keeps_example =
    run-Keeps drawing drawing-NoRepeats calls start (init-Valid drawing 20 0) (omega arith)

state-Valid : Valid drawing 20 state
state-Valid = run-Keeps_example.0

-- the grant of scope `always` that the state holds
abbrev first_grant : CapabilityGrant
first_grant =
    new_grant drawing 11 (grant_request "t1" always)
      (run drawing (creating 10 session_request ∷ []) start)

first_grant_present : Dict.get state.grants "grant:1" ≡ some first_grant
unfolding run step create_session record_grant init new_session new_grant persist_session
    persist_grant Dict.get Dict.put grant_id session_id show
first_grant_present = refl

first_grant_active : is_active 20 first_grant ≡ true
unfolding is_active is_past new_grant
first_grant_active = refl

revoke_grant-IsRevoked_example :
    IsRevoked drawing drawing-NoRepeats 20 "grant:1" "user" first_grant
      (revoke_grant drawing 20 "grant:1" "user" "" state)
unfolding run step create_session record_grant init new_session new_grant persist_session
    persist_grant
revoke_grant-IsRevoked_example =
    revoke_grant-IsRevoked drawing drawing-NoRepeats 20 "grant:1" "user" "" first_grant state
      state-Valid (omega arith) first_grant_present first_grant_active

restart_lem_example :
    ((k : String)
      → Dict.get (restart state).sessions k
        ≡ kept (λ x. is_persistent x.type) (Dict.get state.sessions k))
    × ((k : String)
        → Dict.get (restart state).grants k
          ≡ kept (λ g. is_always g.scope) (Dict.get state.grants k))
    × ((restart state).revocations ≡ state.revocations)
restart_lem_example = restart_lem state state-Valid

session_there : Dict.has state.sessions "session:0" ≡ true
unfolding run step create_session record_grant init new_session new_grant persist_session
    persist_grant Dict.get Dict.put grant_id session_id show
session_there = refl

ended_draws : (end_session drawing 30 "session:0" state).1.drawn ≡ 5
unfolding end_session forget_session run step create_session record_grant init new_session new_grant
    persist_session persist_grant Dict.get Dict.put grant_id session_id show revoke_each revoke_one
    revoke_grant and_then add_count new_revocation persist_revocation after_insert is_active is_past
    revocation_id in_session of_principal replace Dict.remove
ended_draws = refl

revoked_draws : (revoke_all_for_principal drawing 30 "agent" "user" state).1.drawn ≡ 5
unfolding revoke_all_for_principal run step create_session record_grant init new_session new_grant
    persist_session persist_grant Dict.get Dict.put grant_id session_id show revoke_each revoke_one
    revoke_grant and_then add_count new_revocation persist_revocation after_insert is_active is_past
    revocation_id in_session of_principal replace Dict.remove
revoked_draws = refl

end_session-IsEnded_example :
    IsEnded drawing drawing-NoRepeats 30 "session:0" state
      (end_session drawing 30 "session:0" state)
end_session-IsEnded_example =
    end_session-IsEnded drawing drawing-NoRepeats 30 "session:0" state state-Valid session_there
      (omega (arith, ended_draws))

revoke_all_for_principal-IsCleared_example :
    ((revoke_all_for_principal drawing 30 "agent" "user" state).0
      ≡ ok (length (select (λ e. of_principal "agent" e.1 && is_active 30 e.1) state.grants)))
    × IsCleared drawing 30
        (of_principal "agent")
        "user"
        state
        (revoke_all_for_principal drawing 30 "agent" "user" state).1
    × Valid drawing 20 (revoke_all_for_principal drawing 30 "agent" "user" state).1
revoke_all_for_principal-IsCleared_example =
    revoke_all_for_principal-IsCleared drawing drawing-NoRepeats 30 "agent" "user" state state-Valid
      (omega (arith, revoked_draws))

list_grants_lem_example :
    ((g : CapabilityGrant)
      → In g (list_grants 20 (some "agent") true (some 11) state) ↔ (
          In g (Dict.values state.grants)
          × AllowsPrincipal (some "agent") g.principal
          × (true ≡ true → is_active 20 g ≡ true)
          × AllowsTime (some 11) g.granted_at))
    × IsDescending (λ g. g.granted_at) (list_grants 20 (some "agent") true (some 11) state)
list_grants_lem_example = list_grants_lem 20 (some "agent") true (some 11) state

-- the draws of `counting` are all alike: after one revocation, the next one collides
abbrev alike : SessionManager
alike =
    run counting
      (recording 11 (grant_request "t1" always)
        ∷ revoking 12 "grant:0badcafe" "user" ""
        ∷ recording 13 (grant_request "t3" always)
        ∷ [])
      start

abbrev third_grant : CapabilityGrant
third_grant = new_grant counting 13 (grant_request "t3" always) start

revoke_grant_collision_example :
    ((revoke_grant counting 20 "grant:0badcafe" "user" "" alike).0
      ≡ raise (integrity_error (revocation_id counting alike.drawn)))
    × (Dict.get
          (revoke_grant counting 20 "grant:0badcafe" "user" "" alike).1.grants
          "grant:0badcafe"
        ≡ some (revoked 20 "user" third_grant))
    × (restart (revoke_grant counting 20 "grant:0badcafe" "user" "" alike).1
        ≡ init alike.db (alike.drawn + 1))
unfolding run step create_session record_grant init new_session new_grant persist_session
    persist_grant Dict.get Dict.put grant_id session_id show revoke_each revoke_one revoke_grant
    and_then add_count new_revocation persist_revocation after_insert is_active is_past
    revocation_id in_session of_principal replace Dict.remove
revoke_grant_collision_example =
    revoke_grant_collision counting 20 "grant:0badcafe" "user" "" third_grant alike refl refl refl
