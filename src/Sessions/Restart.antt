-- ===== src/Sessions/Restart.antt =====
-- What survives the process (`_load_persisted_data`), and what a revocation leaves on disk
-- (`revoke_grant` of kernel/sessions.py).
use terminal_agent.Base.{
  ℕ, ◌+◌, ◌<◌, ◌≡◌, ◌∙◌, refl, sym, ap, subst, String, Bool, true, false, some, [], ◌==◌, any,
  arith,
}
use text.Mathlib.TextPositions.{eq_refl}
use terminal_agent.Dict
use terminal_agent.Dict.{Dict}
use terminal_agent.Platform.{Platform}
use terminal_agent.Result.{Result, ok, raise, integrity_error}
use terminal_agent.Sessions.{
  load, persistent_rows, init, restart, revocation_id, persist_revocation, revoked, new_revocation,
  after_insert, revoke_grant,
}
use terminal_agent.Sessions.Records.{
  Session, CapabilityGrant, SessionManager, is_active, is_persistent, is_always,
}
use terminal_agent.Sessions.Tables.{kept, load_all}
use terminal_agent.Sessions.Mirrors.{rows_pass}
use terminal_agent.Sessions.Valid.{revocation_id_new, after_revocation, revoke_grant_active}
use terminal_agent.Sessions.Invariant.{Valid, NoRepeats}
use terminal_agent.Sessions.Query.{is_token_revoked}
use terminal_agent.Sessions.Swept.{after_revocation-tokens}
use terminal_agent.Sessions.Runs.{after_revocation-Keeps}

module _ {os : Platform} {bound : ℕ} where
  restart-grants : (s : SessionManager) → Valid os bound s → (restart s).grants ≡ s.db.grants
  unfolding restart init
  restart-grants s v =
      load_all (λ g. g.id) s.db.grants v.rest.grants.distinct v.rest.grants.table-IsKeyed

  restart-revocations :
      (s : SessionManager) → Valid os bound s → (restart s).revocations ≡ s.revocations
  unfolding restart init
  restart-revocations s v =
      load_all (λ r. r.id) s.db.revocations v.rest.revocations.distinct
        v.rest.revocations.table-IsKeyed
      ∙ sym v.rest.loaded

  restart-sessions : (s : SessionManager) → Valid os bound s → (restart s).sessions ≡ s.db.sessions
  unfolding restart init persistent_rows
  restart-sessions s v =
      ap (λ (rows : Dict Session). load (λ x. x.id) rows []) (rows_pass v.sessions)
      ∙ load_all (λ x. x.id) s.db.sessions v.sessions.distinct v.sessions.table-IsKeyed

  -- From a valid state, a restart has exactly the sessions of type persistent, exactly the grants
  -- of scope always, as they were, and all revocations.
  pub restart_lem :
      (s : SessionManager)
      → Valid os bound s
      → ((k : String)
          → Dict.get (restart s).sessions k
            ≡ kept (λ x. is_persistent x.type) (Dict.get s.sessions k))
        × ((k : String)
            → Dict.get (restart s).grants k ≡ kept (λ g. is_always g.scope) (Dict.get s.grants k))
        × ((restart s).revocations ≡ s.revocations)
  restart_lem s v = (
    λ k. ap (λ (d : Dict Session). Dict.get d k) (restart-sessions s v) ∙ v.sessions.same k,
    λ k.
        ap (λ (d : Dict CapabilityGrant). Dict.get d k) (restart-grants s v) ∙ v.rest.grants.same k,
    restart-revocations s v,
  )

module _ (os : Platform) {bound : ℕ} (apart : NoRepeats os bound) (now : ℕ) where
  -- What `revoke_grant` leaves of an active grant, in this process and in the next.
  pub record IsRevoked (key by : String) (g : CapabilityGrant) (r : Result Bool × SessionManager)
      : Type 0 where
    pub answer : r.0 ≡ ok true
    pub grant : Dict.get r.1.grants key ≡ some (revoked now by g)
    pub grant_on_disk :
        is_always g.scope ≡ true → Dict.get (restart r.1).grants key ≡ some (revoked now by g)
    pub token : is_token_revoked g.token r.1 ≡ true
    pub token_on_disk : is_token_revoked g.token (restart r.1) ≡ true
    pub again :
        (t : ℕ) (by' reason : String) → revoke_grant os t key by' reason r.1 ≡ (ok false, r.1)

  revoke_grant_again :
      (t : ℕ) (key by by' reason : String) (g : CapabilityGrant) (s : SessionManager)
      → Dict.get s.grants key ≡ some (revoked now by g)
      → revoke_grant os t key by' reason s ≡ (ok false, s)
  unfolding revoke_grant is_active
  revoke_grant_again t key by by' reason g s h = rw (revoke_grant, h) refl

  -- On a valid state, with a draw that no earlier one equals, a revocation of an active grant
  -- answers True; from then on the grant stands as revoked and its token is revoked, in this
  -- process and after a restart (the grant there if its scope is always), and a second revocation,
  -- at any time, answers False and changes nothing.
  pub revoke_grant-IsRevoked :
      (key by reason : String) (g : CapabilityGrant) (s : SessionManager)
      → Valid os bound s
      → s.drawn < bound
      → Dict.get s.grants key ≡ some g
      → is_active now g ≡ true
      → IsRevoked key by g (revoke_grant os now key by reason s)
  unfolding after_revocation kept is_token_revoked
  revoke_grant-IsRevoked key by reason g s v below got active =
      let after = after_revocation os now key by reason g s in
      let (valid, _) = after_revocation-Keeps os apart now key by reason g s v below got in
      let (_, grants, revocations) = restart_lem after valid in
      let grant : Dict.get after.grants key ≡ some (revoked now by g) =
        Dict.get-put s.grants key key (revoked now by g) ∙ rw (eq_refl key) refl in
      let token : is_token_revoked g.token after ≡ true =
        after_revocation-tokens os now key by reason g s
          (revocation_id_new os apart now s v.rest below) g.token
        ∙ rw (eq_refl g.token) (ground arith) in
      subst (IsRevoked key by g)
        (sym (revoke_grant_active os apart now s v.rest key by reason g below got active))
        (record {
          answer = refl;
          grant = grant;
          grant_on_disk =
              λ always. grants key ∙ ap (kept (λ x. is_always x.scope)) grant ∙ rw always refl;
          token = token;
          token_on_disk = ap (any (λ e. e.1.token == g.token)) revocations ∙ token;
          again = λ t by' why. revoke_grant_again t key by by' why g after grant;
        })

module _ (os : Platform) (now : ℕ) where
  -- If the draw for the revocation is one that the table has, a revocation of an active grant
  -- raises the integrity error of the database and the grant stands as revoked, but nothing of it
  -- is on disk: the state after a restart is the one that a restart without the call would give,
  -- but for the draw.
  pub revoke_grant_collision :
      (key by reason : String) (g : CapabilityGrant) (s : SessionManager)
      → Dict.has s.db.revocations (revocation_id os s.drawn) ≡ true
      → Dict.get s.grants key ≡ some g
      → is_active now g ≡ true
      → ((revoke_grant os now key by reason s).0
          ≡ raise (integrity_error (revocation_id os s.drawn)))
        × (Dict.get (revoke_grant os now key by reason s).1.grants key ≡ some (revoked now by g))
        × (restart (revoke_grant os now key by reason s).1 ≡ init s.db (s.drawn + 1))
  unfolding revoke_grant persist_revocation after_insert new_revocation restart
  revoke_grant_collision key by reason g s taken got active =
      rw (revoke_grant, got, active, persist_revocation, taken, after_insert)
        (refl, Dict.get-put s.grants key key (revoked now by g) ∙ rw (eq_refl key) refl, refl)
