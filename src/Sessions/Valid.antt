-- ===== src/Sessions/Valid.antt =====
-- Each of the calls that write keeps the invariant of the session manager and its database
-- (kernel/sessions.py).
use terminal_agent.Base.{
  ℕ, ◌+◌, ◌<◌, ◌≡◌, ◌∙◌, refl, ap, subst, String, true, none, some, arith, Bool-cases, inl, inr,
}
use terminal_agent.Dict
use terminal_agent.Dict.{Dict}
use terminal_agent.Platform.{Platform}
use terminal_agent.Result.{ok}
use terminal_agent.Sessions.{
  SessionRequest, GrantRequest, session_id, grant_id, revocation_id, persist_session, persist_grant,
  persist_revocation, new_session, create_session, new_grant, record_grant, revoked, new_revocation,
  after_insert, revoke_grant,
}
use terminal_agent.Sessions.Records.{
  CapabilityGrant, RevocationRecord, SessionManager, is_active, is_persistent, is_always,
}
use terminal_agent.Sessions.Tables.{replace_absent}
use terminal_agent.Sessions.Mirrors.{Mirrors, written, later-Mirrors, add-Mirrors, change-Mirrors}
use terminal_agent.Sessions.Invariant.{NoRepeats, prefix_inj, ValidGrants, Valid}

module _ (os : Platform) (now : ℕ) where
  -- what `revoke_grant` leaves of an active grant, when the insert goes through
  unfoldable pub after_revocation :
      String → String → String → CapabilityGrant → SessionManager → SessionManager
  unfolding new_revocation written
  after_revocation key by reason g s =
      let r = new_revocation os now key g by reason s in
      record {
        sessions = s.sessions;
        grants = Dict.put s.grants key (revoked now by g);
        revocations = Dict.put s.revocations r.id r;
        db = record {
          sessions = s.db.sessions;
          grants = written (λ g. is_always g.scope) s.db.grants key (revoked now by g);
          revocations = Dict.put s.db.revocations r.id r;
        };
        drawn = s.drawn + 1;
      }

module _ (os : Platform) {bound : ℕ} (apart : NoRepeats os bound) where
  session_id_inj : (m n : ℕ) → m < bound → n < bound → session_id os m ≡ session_id os n → m ≡ n
  unfolding session_id
  session_id_inj m n a b h =
      apart m n a b (prefix_inj "session:" (os.uuid4_hex8 m) (os.uuid4_hex8 n) h)

  grant_id_inj : (m n : ℕ) → m < bound → n < bound → grant_id os m ≡ grant_id os n → m ≡ n
  unfolding grant_id
  grant_id_inj m n a b h = apart m n a b (prefix_inj "grant:" (os.uuid4_hex8 m) (os.uuid4_hex8 n) h)

  revocation_id_inj :
      (m n : ℕ) → m < bound → n < bound → revocation_id os m ≡ revocation_id os n → m ≡ n
  unfolding revocation_id
  revocation_id_inj m n a b h =
      apart m n a b (prefix_inj "revoke:" (os.uuid4_hex8 m) (os.uuid4_hex8 n) h)

  module _ (now : ℕ) (s : SessionManager) (v : Valid os bound s) where
    pub create_session-Valid :
        (q : SessionRequest) → s.drawn < bound → Valid os bound (create_session os now q s).1
    unfolding create_session new_session persist_session written
    create_session-Valid q below =
        let added = add-Mirrors (new_session os now q s) refl below session_id_inj v.sessions in
        elim (Bool-cases (is_persistent q.session_type)) [
          | inl e ↦ rw e (record {
            sessions = rw e at added;
            rest = record {
              grants = later-Mirrors (omega arith) v.rest.grants;
              revocations = later-Mirrors (omega arith) v.rest.revocations;
              loaded = v.rest.loaded;
            };
          })
          | inr e ↦ rw e (record {
            sessions = rw e at added;
            rest = record {
              grants = later-Mirrors (omega arith) v.rest.grants;
              revocations = later-Mirrors (omega arith) v.rest.revocations;
              loaded = v.rest.loaded;
            };
          })
        ]

    pub record_grant-Valid :
        (q : GrantRequest) → s.drawn < bound → Valid os bound (record_grant os now q s).1
    unfolding record_grant new_grant persist_grant written
    record_grant-Valid q below =
        let added = add-Mirrors (new_grant os now q s) refl below grant_id_inj v.rest.grants in
        elim (Bool-cases (is_always q.scope)) [
          | inl e ↦ rw e (record {
            sessions = later-Mirrors (omega arith) v.sessions;
            rest = record {
              grants = rw e at added;
              revocations = later-Mirrors (omega arith) v.rest.revocations;
              loaded = v.rest.loaded;
            };
          })
          | inr e ↦ rw e (record {
            sessions = later-Mirrors (omega arith) v.sessions;
            rest = record {
              grants = rw e at added;
              revocations = later-Mirrors (omega arith) v.rest.revocations;
              loaded = v.rest.loaded;
            };
          })
        ]

  module _ (now : ℕ) (s : SessionManager) (v : ValidGrants os bound s) where
    -- the draw is new to the table of revocations
    revocation_id_free :
        s.drawn < bound → Dict.get s.db.revocations (revocation_id os s.drawn) ≡ none
    revocation_id_free below = v.revocations.free s.drawn (omega arith) below

    pub revocation_id_new :
        s.drawn < bound → Dict.get s.revocations (revocation_id os s.drawn) ≡ none
    revocation_id_new below =
        ap (λ (d : Dict RevocationRecord). Dict.get d (revocation_id os s.drawn)) v.loaded
        ∙ revocation_id_free below

    pub revoke_grant_active :
        (key by reason : String) (g : CapabilityGrant)
        → s.drawn < bound
        → Dict.get s.grants key ≡ some g
        → is_active now g ≡ true
        → revoke_grant os now key by reason s ≡ (ok true, after_revocation os now key by reason g s)
    unfolding revoke_grant after_revocation new_revocation after_insert persist_revocation
        persist_grant written
    revoke_grant_active key by reason g below got active =
        rw (revoke_grant, got, active, persist_revocation, revocation_id_free below, after_insert)
          (elim (Bool-cases (is_always g.scope)) [
            | inl e ↦ rw (persist_grant, e, v.grants.dict-IsKeyed key g got) refl
            | inr e ↦ rw e refl
          ])

    pub after_revocation-Valid :
        (key by reason : String) (g : CapabilityGrant)
        → s.drawn < bound
        → Dict.get s.grants key ≡ some g
        → ValidGrants os bound (after_revocation os now key by reason g s)
    unfolding after_revocation new_revocation written
    after_revocation-Valid key by reason g below got =
        let r = new_revocation os now key g by reason s in
        record {
          grants = change-Mirrors key g (revoked now by g) (omega arith) got refl refl v.grants;
          revocations =
              subst
                (Mirrors (λ r. r.id) (λ r. true) (revocation_id os) bound (s.drawn + 1)
                  (Dict.put s.db.revocations r.id r))
                (replace_absent s.db.revocations r.id r (revocation_id_free below))
                (add-Mirrors r refl below revocation_id_inj v.revocations);
          loaded = ap (λ (t : Dict RevocationRecord). Dict.put t r.id r) v.loaded;
        }
