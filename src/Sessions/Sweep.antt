-- ===== src/Sessions/Sweep.antt =====
-- The loop that revokes many grants (`end_session`, `revoke_all_for_principal` of
-- kernel/sessions.py): which grants it revokes, which tokens, and how many.
use terminal_agent.Base.{
  ℕ, ◌+◌, ◌≤◌, ◌≡◌, ◌∙◌, refl, String, Bool, true, false, ◌&&◌, ◌||◌, some, List, [], ◌∷◌, ◌++◌,
  any, arith, Bool-cases, Option-cases, inl, inr,
}
use terminal_agent.Dict
use terminal_agent.Dict.{Dict}
use terminal_agent.Platform.{Platform}
use terminal_agent.Result.{Result, ok, raise}
use terminal_agent.Sessions.{persist_grant, persist_revocation, revoked, after_insert, revoke_grant}
use terminal_agent.Sessions.Records.{
  CapabilityGrant, RevocationRecord, SessionManager, is_active, is_always,
}
use terminal_agent.Sessions.Ending.{
  forget_session, after_end, add_count, and_then, revoke_one, revoke_each,
}

pub any-append {ℓ} :
    {A : Type ℓ} (p : A → Bool) (xs ys : List A) → any p (xs ++ ys) ≡ (any p xs || any p ys)
any-append p [] ys = refl
any-append p (x ∷ xs) ys = ground (arith, any-append p xs ys)

pub add_count-state : (b : Bool) (r : Result ℕ × SessionManager) → (add_count b r).1 ≡ r.1
unfolding add_count
add_count-state b (raise e, s) = refl
add_count-state true (ok n, s) = refl
add_count-state false (ok n, s) = refl

after_insert-drawn :
    (g : CapabilityGrant) (r : Result (Unit {0}) × SessionManager)
    → (after_insert g r).1.drawn ≡ r.1.drawn
unfolding after_insert persist_grant
after_insert-drawn g (raise e, s) = refl
after_insert-drawn g (ok u, s) = elim (Bool-cases (is_always g.scope)) [
  | inl e ↦ rw e refl
  | inr e ↦ rw e refl
]

persist_revocation-drawn :
    (r : RevocationRecord) (s : SessionManager) → (persist_revocation r s).1.drawn ≡ s.drawn
unfolding persist_revocation
persist_revocation-drawn r s = elim (Bool-cases (Dict.has s.db.revocations r.id)) [
  | inl e ↦ rw e refl
  | inr e ↦ rw e refl
]

pub and_then-state :
    (r : Result Bool × SessionManager) (k : SessionManager → Result ℕ × SessionManager)
    → ((s : SessionManager) → s.drawn ≤ (k s).1.drawn)
    → r.1.drawn ≤ (and_then r k).1.drawn
unfolding and_then
and_then-state (raise e, s) k more = omega arith
and_then-state (ok b, s) k more = rw (add_count-state b (k s)) (more s)

pub after_end-drawn : (r : Result Bool × SessionManager) → (after_end r).1.drawn ≡ r.1.drawn
unfolding after_end
after_end-drawn (raise e, s) = refl
after_end-drawn (ok b, s) = refl

pub forget_session-drawn :
    (key : String) (r : Result ℕ × SessionManager) → (forget_session key r).1.drawn ≡ r.1.drawn
unfolding forget_session
forget_session-drawn key (raise e, s) = refl
forget_session-drawn key (ok n, s) = refl

module _ (os : Platform) (now : ℕ) where
  -- a revocation of an active grant draws once, whether the insert goes through or not
  pub revoke_grant-drawn_active :
      (key by reason : String) (g : CapabilityGrant) (s : SessionManager)
      → Dict.get s.grants key ≡ some g
      → is_active now g ≡ true
      → (revoke_grant os now key by reason s).1.drawn ≡ s.drawn + 1
  unfolding revoke_grant
  revoke_grant-drawn_active key by reason g s got active =
      rw (revoke_grant, got, active)
        (after_insert-drawn (revoked now by g) _ ∙ persist_revocation-drawn _ _)

  pub revoke_grant-drawn :
      (key by reason : String) (s : SessionManager)
      → s.drawn ≤ (revoke_grant os now key by reason s).1.drawn
  unfolding revoke_grant
  revoke_grant-drawn key by reason s = elim (Option-cases (Dict.get s.grants key)) [
    | inl e ↦ rw (revoke_grant, e) (omega arith)
    | inr (g, e) ↦ elim (Bool-cases (is_active now g)) [
      | inl a ↦ omega (arith, revoke_grant-drawn_active key by reason g s e a)
      | inr a ↦ rw (revoke_grant, e, a) (omega arith)
    ]
  ]

  module _ (wanted : CapabilityGrant → Bool) (by : String) where
    -- the object under the key is wanted and active
    abbrev pub falls : CapabilityGrant → Bool
    falls g = wanted g && is_active now g

    pub revoke_one_hit :
        (key : String) (g : CapabilityGrant) (s : SessionManager)
        → Dict.get s.grants key ≡ some g
        → falls g ≡ true
        → revoke_one os now wanted by key s ≡ revoke_grant os now g.id by "" s
    unfolding revoke_one
    revoke_one_hit key g s got hit = rw (revoke_one, got, hit) refl

    pub revoke_one_miss :
        (key : String) (g : CapabilityGrant) (s : SessionManager)
        → Dict.get s.grants key ≡ some g
        → falls g ≡ false
        → revoke_one os now wanted by key s ≡ (ok false, s)
    unfolding revoke_one
    revoke_one_miss key g s got miss = rw (revoke_one, got, miss) refl

    pub revoke_one-drawn :
        (key : String) (s : SessionManager) → s.drawn ≤ (revoke_one os now wanted by key s).1.drawn
    unfolding revoke_one
    revoke_one-drawn key s = elim (Option-cases (Dict.get s.grants key)) [
      | inl e ↦ rw (revoke_one, e) (omega arith)
      | inr (g, e) ↦ elim (Bool-cases (falls g)) [
        | inl a ↦ rw (revoke_one_hit key g s e a) (revoke_grant-drawn g.id by "" s)
        | inr a ↦ rw (revoke_one_miss key g s e a) (omega arith)
      ]
    ]

    pub revoke_each-drawn :
        (keys : List String) (s : SessionManager)
        → s.drawn ≤ (revoke_each os now wanted by keys s).1.drawn
    unfolding revoke_each
    revoke_each-drawn [] s = omega arith
    revoke_each-drawn (key ∷ keys) s = omega (
      arith,
      revoke_one-drawn key s,
      and_then-state (revoke_one os now wanted by key s) (revoke_each os now wanted by keys)
          (revoke_each-drawn keys),
    )
