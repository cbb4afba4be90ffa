-- ===== src/Sessions/Swept.antt =====
-- What the loop that revokes many grants leaves (`end_session`, `revoke_all_for_principal` of
-- kernel/sessions.py): every wanted active grant is revoked, all others are as before.
use terminal_agent.Base.{
  ℕ, ◌+◌, ◌<◌, ◌≤◌, ◌≡◌, ◌∙◌, refl, sym, ap, subst, String, Bool, true, false, ◌&&◌, ◌||◌, none,
  some, [], ◌∷◌, ◌==◌, any, select, length, if◌then◌else◌, arith, eq_iff, Bool-cases, inl, inr,
}
use mathlib.Core.Option.{some-injective}
use text.Mathlib.TextPositions.{eq_refl}
use terminal_agent.Dict
use terminal_agent.Dict.{Dict}
use terminal_agent.Platform.{Platform}
use terminal_agent.Result.{Result, ok}
use terminal_agent.Sessions.{revocation_id, revoked, new_revocation}
use terminal_agent.Sessions.Records.{CapabilityGrant, SessionManager, is_active}
use terminal_agent.Sessions.Tables.{put_new}
use terminal_agent.Sessions.Valid.{
  revocation_id_new, after_revocation, revoke_grant_active, after_revocation-Valid,
}
use terminal_agent.Sessions.Invariant.{ValidGrants, NoRepeats}
use terminal_agent.Sessions.Ending.{add_count, and_then, revoke_one, revoke_each}
use terminal_agent.Sessions.Query.{is_token_revoked}
use terminal_agent.Sessions.Sweep.{
  any-append, add_count-state, revoke_each-drawn, revoke_one_hit, revoke_one_miss, falls,
  revoke_grant-drawn_active, and_then-state,
}

add_count_ok :
    (b : Bool) (n : ℕ) (r : Result ℕ × SessionManager)
    → r.0 ≡ ok n
    → add_count b r ≡ (ok (if b then n + 1 else n), r.1)
unfolding add_count
add_count_ok true n (r, s) h = rw h refl
add_count_ok false n (r, s) h = rw h refl

-- what a recorded revocation adds to the revoked tokens
pub after_revocation-tokens :
    (os : Platform) (now : ℕ) (key by reason : String) (g : CapabilityGrant) (s : SessionManager)
    → Dict.get s.revocations (revocation_id os s.drawn) ≡ none
    → (t : String)
    → is_token_revoked t (after_revocation os now key by reason g s)
      ≡ (is_token_revoked t s || (g.token == t))
unfolding after_revocation new_revocation is_token_revoked
after_revocation-tokens os now key by reason g s new t =
    rw
      (put_new s.revocations (revocation_id os s.drawn) (new_revocation os now key g by reason s)
        new)
      (any-append (λ e. e.1.token == t) s.revocations _ ∙ ground arith)

module _ (os : Platform) {bound : ℕ} (apart : NoRepeats os bound) (now : ℕ)
    (wanted : CapabilityGrant → Bool) (by : String) where
  -- the grant after the loop
  abbrev pub left : CapabilityGrant → CapabilityGrant
  left g = if falls os now wanted by g then revoked now by g else g

  -- one round, at the grant that stands under the key
  record Round (key : String) (g : CapabilityGrant) (s after : SessionManager) : Type 0 where
    round : revoke_one os now wanted by key s ≡ (ok (falls os now wanted by g), after)
    valid : ValidGrants os bound after
    grants :
        (j : String)
        → Dict.get after.grants j ≡ (if key == j then some (left g) else Dict.get s.grants j)
    tokens :
        (t : String)
        → is_token_revoked t after
          ≡ (is_token_revoked t s || (falls os now wanted by g && g.token == t))
    sessions : after.sessions ≡ s.sessions
    db_sessions : after.db.sessions ≡ s.db.sessions

  revoke_one-Round :
      (key : String) (g : CapabilityGrant) (s : SessionManager)
      → ValidGrants os bound s
      → Dict.get s.grants key ≡ some g
      → (revoke_one os now wanted by key s).1.drawn ≤ bound
      → (after : SessionManager) × Round key g s after
  unfolding after_revocation
  revoke_one-Round key g s v got room = elim (Bool-cases (falls os now wanted by g)) [
    | inl e ↦
        let own : g.id ≡ key = v.grants.dict-IsKeyed key g got in
        let at_id : Dict.get s.grants g.id ≡ some g = ap (Dict.get s.grants) own ∙ got in
        let active : is_active now g ≡ true = ground (arith, e) in
        let hit = revoke_one_hit os now wanted by key g s got e in
        let below : s.drawn < bound = omega (
          arith,
          room,
          ap (λ (r : Result Bool × SessionManager). r.1.drawn) hit,
          revoke_grant-drawn_active os now g.id by "" g s at_id active,
        ) in
        let fresh : Dict.get s.revocations (revocation_id os s.drawn) ≡ none =
          revocation_id_new os apart now s v below in
        (
          after_revocation os now g.id by "" g s,
          record {
            round =
                rw e (hit ∙ revoke_grant_active os apart now s v g.id by "" g below at_id active);
            valid = after_revocation-Valid os apart now s v g.id by "" g below at_id;
            grants = λ j. rw e (
                ap (λ (i : String). Dict.get (Dict.put s.grants i (revoked now by g)) j) own
                ∙ Dict.get-put s.grants key j (revoked now by g));
            tokens = λ t. rw e (after_revocation-tokens os now g.id by "" g s fresh t);
            sessions = refl;
            db_sessions = refl;
          },
        )
    | inr e ↦ (
      s,
      record {
        round = rw e (revoke_one_miss os now wanted by key g s got e);
        valid = v;
        grants = λ j. elim (Bool-cases (key == j)) [
          | inl q ↦ rw (q, e, ← (eq_iff key j).0 q) got
          | inr q ↦ rw q refl
        ];
        tokens = λ t. rw e (ground arith);
        sessions = refl;
        db_sessions = refl;
      },
    )
  ]

  -- the whole loop, over the entries of a dict that are there at its start
  pub record Swept (d : Dict CapabilityGrant) (s : SessionManager) (r : Result ℕ × SessionManager)
      : Type 0 where
    pub answer : r.0 ≡ ok (length (select (λ e. falls os now wanted by e.1) d))
    pub valid : ValidGrants os bound r.1
    pub swept :
        (k : String) (g : CapabilityGrant)
        → Dict.get d k ≡ some g
        → Dict.get r.1.grants k ≡ some (left g)
    pub others : (k : String) → Dict.get d k ≡ none → Dict.get r.1.grants k ≡ Dict.get s.grants k
    pub tokens :
        (t : String)
        → is_token_revoked t r.1
          ≡ (is_token_revoked t s || any (λ e. falls os now wanted by e.1 && e.1.token == t) d)
    pub sessions : r.1.sessions ≡ s.sessions
    pub db_sessions : r.1.db.sessions ≡ s.db.sessions

  Swept-cons :
      (key : String) (g : CapabilityGrant) (d : Dict CapabilityGrant) (s after : SessionManager)
      (rest : Result ℕ × SessionManager)
      → Dict.get d key ≡ none
      → Round key g s after
      → Swept d after rest
      → Swept ((key, g) ∷ d) s (
        ok (
            let n = length (select (λ e. falls os now wanted by e.1) d) in
            if falls os now wanted by g then n + 1 else n),
        rest.1,
      )
  unfolding Dict.get
  Swept-cons key g d s after rest gone o ih = record {
    answer = elim (Bool-cases (falls os now wanted by g)) [
      | inl e ↦ rw e (ap ok (omega arith))
      | inr e ↦ rw e refl
    ];
    valid = ih.valid;
    swept = λ k h got. elim (Bool-cases (key == k)) [
      | inl q ↦
          let same : g ≡ h = some-injective g h (rw q at got) in
          let none_left : Dict.get d k ≡ none = ap (Dict.get d) (sym ((eq_iff key k).0 q)) ∙ gone in
          ih.others k none_left
          ∙ o.grants k
          ∙ rw q (ap (λ (x : CapabilityGrant). some (left x)) same)
      | inr q ↦ ih.swept k h (rw q at got)
    ];
    others = λ k h. elim (Bool-cases (key == k)) [
      | inl q ↦ absurd (cc (rw q at h))
      | inr q ↦ ih.others k (rw q at h) ∙ o.grants k ∙ rw q refl
    ];
    tokens = λ t. ih.tokens t ∙ rw (o.tokens t) (ground arith);
    sessions = ih.sessions ∙ o.sessions;
    db_sessions = ih.db_sessions ∙ o.db_sessions;
  }

  pub revoke_each-Swept :
      (d : Dict CapabilityGrant) (s : SessionManager)
      → ValidGrants os bound s
      → Dict.Distinct d
      → ((k : String) (g : CapabilityGrant) → Dict.get d k ≡ some g → Dict.get s.grants k ≡ some g)
      → (revoke_each os now wanted by (Dict.keys d) s).1.drawn ≤ bound
      → Swept d s (revoke_each os now wanted by (Dict.keys d) s)
  unfolding revoke_each Dict.get and_then
  revoke_each-Swept [] s v distinct present room = record {
    answer = refl;
    valid = v;
    swept = λ k g h. cc;
    others = λ k h. refl;
    tokens = λ t. ground arith;
    sessions = refl;
    db_sessions = refl;
  }
  revoke_each-Swept ((key, g) ∷ d) s v distinct present room =
      let got : Dict.get s.grants key ≡ some g = present key g (rw (eq_refl key) refl) in
      let first_draws =
        and_then-state (revoke_one os now wanted by key s)
          (revoke_each os now wanted by (Dict.keys d))
          (revoke_each-drawn os now wanted by (Dict.keys d)) in
      let (after, o) = revoke_one-Round key g s v got (omega (arith, room, first_draws)) in
      let rest = revoke_each os now wanted by (Dict.keys d) after in
      let step : revoke_each os now wanted by (key ∷ Dict.keys d) s
          ≡ add_count (falls os now wanted by g) rest =
        ap
          (λ (r : Result Bool × SessionManager).
            and_then r (revoke_each os now wanted by (Dict.keys d)))
          o.round in
      let state : (revoke_each os now wanted by (key ∷ Dict.keys d) s).1 ≡ rest.1 =
        ap (λ (r : Result ℕ × SessionManager). r.1) step ∙ add_count-state _ rest in
      let ih =
        revoke_each-Swept d after o.valid distinct.1
          (λ k h got_h. elim (Bool-cases (key == k)) [
            | inl q ↦ absurd (cc (got_h, distinct.0, (eq_iff key k).0 q))
            | inr q ↦ o.grants k ∙ rw q (present k h (rw q got_h))
          ])
          (subst (λ (w : SessionManager). w.drawn ≤ bound) state room) in
      subst (Swept ((key, g) ∷ d) s) (sym (step ∙ add_count_ok _ _ rest ih.answer))
        (Swept-cons key g d s after rest distinct.0 o ih)
