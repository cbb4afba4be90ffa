-- ===== src/Sessions/Invariant.antt =====
-- The invariant of the session manager and its database (kernel/sessions.py). No answer of the draws may
-- come twice: `uuid4().hex[:8]` is 32 bits.
use Prim.Native.String as S
use terminal_agent.Base.{
  ℕ, zero, suc, ◌<◌, ◌≡◌, ◌∙◌, refl, sym, ap, String, true, List, [], ◌∷◌, ◌++◌, length, codes,
  codes-append, codes_inj,
}
use terminal_agent.Platform.{Platform}
use terminal_agent.Sessions.{
  load, persistent_rows, init, restart, empty_database, session_id, grant_id, revocation_id,
}
use terminal_agent.Sessions.Records.{SessionManager, is_persistent, is_always}
use terminal_agent.Sessions.Tables.{load_all}
use terminal_agent.Sessions.Mirrors.{Mirrors, load-Mirrors, empty-Mirrors, rows_pass}

-- the first `bound` draws are different
abbrev pub NoRepeats : Platform → ℕ → Type 0
NoRepeats os bound = (m n : ℕ) → m < bound → n < bound → os.uuid4_hex8 m ≡ os.uuid4_hex8 n → m ≡ n

-- the codes after the first n
drop : ℕ → List ℕ → List ℕ
drop zero l = l
drop (suc n) [] = []
drop (suc n) (c ∷ l) = drop n l

drop-append : (p s : List ℕ) → drop (length p) (p ++ s) ≡ s
unfolding drop
drop-append [] s = refl
drop-append (c ∷ p) s = drop-append p s

pub prefix_inj : (p s t : String) → S.◌++◌ p s ≡ S.◌++◌ p t → s ≡ t
prefix_inj p s t h =
    let texts : codes p ++ codes s ≡ codes p ++ codes t =
      sym (codes-append p s) ∙ ap codes h ∙ codes-append p t in
    codes_inj s t (
      sym (drop-append (codes p) (codes s))
      ∙ ap (drop (length (codes p))) texts
      ∙ drop-append (codes p) (codes t))

module _ (os : Platform) (bound : ℕ) where
  -- the part on grants: the tables hold the grants of scope `always` and every revocation
  pub record ValidGrants (s : SessionManager) : Type 0 where
    pub grants :
        Mirrors
          (λ g. g.id)
          (λ g. is_always g.scope)
          (grant_id os)
          bound
          s.drawn
          s.grants
          s.db.grants
    pub revocations :
        Mirrors
          (λ r. r.id)
          (λ r. true)
          (revocation_id os)
          bound
          s.drawn
          s.db.revocations
          s.db.revocations
    pub loaded : s.revocations ≡ s.db.revocations

  -- The tables hold what is to survive: besides, the persistent sessions.
  pub record Valid (s : SessionManager) : Type 0 where
    pub sessions :
        Mirrors
          (λ x. x.id)
          (λ x. is_persistent x.type)
          (session_id os)
          bound
          s.drawn
          s.sessions
          s.db.sessions
    pub rest : ValidGrants s

  pub init-Valid : (drawn : ℕ) → Valid (init empty_database drawn)
  unfolding init load persistent_rows
  init-Valid drawn = record {
    sessions = empty-Mirrors;
    rest = record { grants = empty-Mirrors; revocations = empty-Mirrors; loaded = refl };
  }

  pub restart-Valid : (s : SessionManager) → Valid s → Valid (restart s)
  unfolding restart init persistent_rows
  restart-Valid s v = record {
    sessions = load-Mirrors (rows_pass v.sessions) v.sessions;
    rest = record {
      grants = load-Mirrors refl v.rest.grants;
      revocations = v.rest.revocations;
      loaded =
          load_all (λ r. r.id) s.db.revocations v.rest.revocations.distinct
            v.rest.revocations.table-IsKeyed;
    };
  }
