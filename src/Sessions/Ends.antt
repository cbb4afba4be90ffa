-- ===== src/Sessions/Ends.antt =====
-- What `end_session`, `get_session` and `revoke_all_for_principal` leave (kernel/sessions.py).
use terminal_agent.Base.{
  ℕ, ◌≤◌, ◌≡◌, ◌∙◌, refl, sym, ap, subst, String, Bool, true, ◌&&◌, Option, none, some, select,
  length, arith,
}
use text.Mathlib.TextPositions.{eq_refl}
use terminal_agent.Dict
use terminal_agent.Dict.{Dict}
use terminal_agent.Platform.{Platform}
use terminal_agent.Result.{Result, ok}
use terminal_agent.Sessions.Records.{Session, SessionManager, is_expired, is_active}
use terminal_agent.Sessions.Mirrors.{remove-Mirrors, later-Mirrors}
use terminal_agent.Sessions.Invariant.{Valid, NoRepeats}
use terminal_agent.Sessions.Ending.{
  revoke_each, in_session, of_principal, forget_session, end_session, after_end, get_session,
  revoke_all_for_principal,
}
use terminal_agent.Sessions.Query.{is_token_revoked}
use terminal_agent.Sessions.Sweep.{revoke_each-drawn, forget_session-drawn, after_end-drawn}
use terminal_agent.Sessions.Swept.{Swept}
use terminal_agent.Sessions.Cleared.{IsCleared}
use terminal_agent.Sessions.Clearing.{Swept-IsCleared, all_Swept, Swept-Valid}

module _ (os : Platform) {bound : ℕ} (apart : NoRepeats os bound) (now : ℕ) where
  -- On a valid state, if no draw repeats an earlier one: the call answers the number of active
  -- grants of the principal; exactly these are revoked and their tokens are exactly the ones that
  -- become revoked; none of its grants is active from then on, all other grants are as they were,
  -- and the state is valid.
  pub revoke_all_for_principal-IsCleared :
      (principal by : String) (s : SessionManager)
      → Valid os bound s
      → (revoke_all_for_principal os now principal by s).1.drawn ≤ bound
      → ((revoke_all_for_principal os now principal by s).0
          ≡ ok (length (select (λ e. of_principal principal e.1 && is_active now e.1) s.grants)))
        × IsCleared os now
            (of_principal principal)
            by
            s
            (revoke_all_for_principal os now principal by s).1
        × Valid os bound (revoke_all_for_principal os now principal by s).1
  unfolding revoke_all_for_principal
  revoke_all_for_principal-IsCleared principal by s v room =
      let w = all_Swept os apart now (of_principal principal) by s v.rest room in
      let more = revoke_each-drawn os now (of_principal principal) by (Dict.keys s.grants) s in
      (
        w.answer,
        Swept-IsCleared os apart now (of_principal principal) by s _ w,
        Swept-Valid os apart now s _ more v.sessions w,
      )

  -- the session is taken out before its grants are revoked
  abbrev without : String → SessionManager → SessionManager
  without key s = record s { sessions = Dict.remove s.sessions key }

  forget_session_ok :
      (key : String) (n : ℕ) (r : Result ℕ × SessionManager)
      → r.0 ≡ ok n
      → forget_session key r ≡ (
        ok true,
        record r.1 { db = record r.1.db { sessions = Dict.remove r.1.db.sessions key } },
      )
  unfolding forget_session
  forget_session_ok key n (r, s) h = rw h refl

  -- the answer and the state of an `end_session` that went through
  abbrev pub IsEnded : String → SessionManager → Result Bool × SessionManager → Type 0
  IsEnded key s r =
      (r.0 ≡ ok true)
      × (Dict.get r.1.sessions key ≡ none)
      × (Dict.get r.1.db.sessions key ≡ none)
      × IsCleared os now (in_session key) "session_end" s r.1
      × Valid os bound r.1

  forgotten-IsCleared :
      (key : String) (s after : SessionManager)
      → IsCleared os now (in_session key) "session_end" (without key s) after
      → IsCleared os now
          (in_session key)
          "session_end"
          s
          (record after { db = record after.db { sessions = Dict.remove after.db.sessions key } })
  unfolding is_token_revoked
  forgotten-IsCleared key s after c = record {
    hit = c.hit;
    missed = c.missed;
    none_added = c.none_added;
    none_active = c.none_active;
    tokens = c.tokens;
  }

  forgotten-IsEnded :
      (key : String) (s : SessionManager) (r : Result ℕ × SessionManager)
      → Valid os bound s
      → s.drawn ≤ r.1.drawn
      → Swept os apart now (in_session key) "session_end" s.grants (without key s) r
      → IsEnded key s (forget_session key r)
  forgotten-IsEnded key s r v more w =
      subst (IsEnded key s) (sym (forget_session_ok key _ r w.answer)) (
        refl,
        rw w.sessions (Dict.get-remove s.sessions key key ∙ rw (eq_refl key) refl),
        Dict.get-remove r.1.db.sessions key key ∙ rw (eq_refl key) refl,
        forgotten-IsCleared key s r.1
            (Swept-IsCleared os apart now (in_session key) "session_end" (without key s) r w),
        record {
          sessions =
              rw (w.sessions, w.db_sessions) (later-Mirrors more (remove-Mirrors key v.sessions));
          rest = record {
            grants = w.valid.grants;
            revocations = w.valid.revocations;
            loaded = w.valid.loaded;
          };
        },
      )

  -- On a valid state, if no draw repeats an earlier one: to end a session that is there answers
  -- True; the session is gone from the dict and from the table; exactly its active grants are
  -- revoked, by session_end, and their tokens are exactly the ones that become revoked; none of
  -- its grants is active from then on, all other grants are as they were, and the state is valid.
  pub end_session-IsEnded :
      (key : String) (s : SessionManager)
      → Valid os bound s
      → Dict.has s.sessions key ≡ true
      → (end_session os now key s).1.drawn ≤ bound
      → IsEnded key s (end_session os now key s)
  unfolding end_session
  end_session-IsEnded key s v has room =
      let r =
        revoke_each os now (in_session key) "session_end" (Dict.keys s.grants) (without key s) in
      let step : end_session os now key s ≡ forget_session key r = rw (end_session, has) refl in
      let room_r : r.1.drawn ≤ bound = omega (
        arith,
        room,
        ap (λ (x : Result Bool × SessionManager). x.1.drawn) step,
        forget_session-drawn key r,
      ) in
      let more =
        revoke_each-drawn os now (in_session key) "session_end" (Dict.keys s.grants)
          (without key s) in
      subst (IsEnded key s) (sym step) (
        forgotten-IsEnded key s r v more (
          all_Swept os apart now (in_session key) "session_end" (without key s)
            (record {
              grants = v.rest.grants;
              revocations = v.rest.revocations;
              loaded = v.rest.loaded;
            })
            room_r))

  after_end_ok :
      (b : Bool) (r : Result Bool × SessionManager) → r.0 ≡ ok b → after_end r ≡ (ok none, r.1)
  unfolding after_end
  after_end_ok b (r, s) h = rw h refl

  -- No expired session is returned: it has ended when the call returns.
  pub get_session-IsEnded :
      (key : String) (x : Session) (s : SessionManager)
      → Valid os bound s
      → Dict.get s.sessions key ≡ some x
      → is_expired now x ≡ true
      → (get_session os now key s).1.drawn ≤ bound
      → ((get_session os now key s).0 ≡ ok none)
        × IsEnded key s (ok true, (get_session os now key s).1)
  unfolding get_session
  get_session-IsEnded key x s v got over room =
      let r = end_session os now key s in
      let step : get_session os now key s ≡ after_end r =
        rw (get_session, got, over) (ap after_end (rw (end_session, got) refl)) in
      let room_r : r.1.drawn ≤ bound = omega (
        arith,
        room,
        ap (λ (y : Result (Option Session) × SessionManager). y.1.drawn) step,
        after_end-drawn r,
      ) in
      let e = end_session-IsEnded key s v (rw got refl) room_r in
      subst
        (λ (y : Result (Option Session) × SessionManager).
          (y.0 ≡ ok none) × IsEnded key s (ok true, y.1))
        (sym (step ∙ after_end_ok true r e.0)) (refl, (refl, e.1, e.2, e.3, e.4))
