-- ===== src/Sessions/Ending.antt =====
-- The calls that revoke many grants: `end_session`, `get_session` of an expired session, and
-- `revoke_all_for_principal` (kernel/sessions.py).
use terminal_agent.Base.{
  ℕ, ◌+◌, String, Bool, true, false, ◌&&◌, Option, none, some, List, [], ◌∷◌, ◌==◌, if◌then◌else◌,
}
use terminal_agent.Dict
use terminal_agent.Dict.{Dict}
use terminal_agent.Platform.{Platform}
use terminal_agent.Result.{Result, ok, raise}
use terminal_agent.Sessions.{revoke_grant}
use terminal_agent.Sessions.Records.{
  Session, CapabilityGrant, SessionManager, is_expired, is_active,
}

-- what a loop does with an answer: an exception ends it, `True` is counted
unfoldable pub add_count : Bool → Result ℕ × SessionManager → Result ℕ × SessionManager
add_count b (raise e, s) = (raise e, s)
add_count true (ok n, s) = (ok (n + 1), s)
add_count false (ok n, s) = (ok n, s)

unfoldable pub and_then :
    Result Bool × SessionManager
    → (SessionManager → Result ℕ × SessionManager)
    → Result ℕ × SessionManager
unfolding add_count
and_then (raise e, s) continue = (raise e, s)
and_then (ok b, s) continue = add_count b (continue s)

-- `g.session_id == key`
unfoldable pub in_session : String → CapabilityGrant → Bool
in_session key g = elim g.session_id [ none ↦ false | some k ↦ k == key ]

unfoldable pub of_principal : String → CapabilityGrant → Bool
of_principal principal g = g.principal == principal

-- the end of `end_session`, after its loop
unfoldable pub forget_session : String → Result ℕ × SessionManager → Result Bool × SessionManager
forget_session key (raise e, s) = (raise e, s)
forget_session key (ok n, s) =
    (ok true, record s { db = record s.db { sessions = Dict.remove s.db.sessions key } })

-- `get_session`, its answer `None` when the session has expired
unfoldable pub after_end : Result Bool × SessionManager → Result (Option Session) × SessionManager
after_end (raise e, s) = (raise e, s)
after_end (ok b, s) = (ok none, s)

module _ (os : Platform) (now : ℕ) where
  -- One round of a loop over `list(self._grants.values())`: the object that stands under the key is
  -- revoked if it is wanted and active. No round adds, removes or exchanges an object.
  unfoldable pub revoke_one :
      (CapabilityGrant → Bool) → String → String → SessionManager → Result Bool × SessionManager
  unfolding revoke_grant
  revoke_one wanted by key s = elim (Dict.get s.grants key) [
    | none ↦ (ok false, s)
    | some g ↦
        if wanted g && is_active now g then revoke_grant os now g.id by "" s else (ok false, s)
  ]

  unfoldable pub revoke_each :
      (CapabilityGrant → Bool) → String → List String → SessionManager → Result ℕ × SessionManager
  unfolding revoke_one and_then
  revoke_each wanted by [] s = (ok 0, s)
  revoke_each wanted by (key ∷ rest) s =
      and_then (revoke_one wanted by key s) (revoke_each wanted by rest)

  unfoldable pub end_session : String → SessionManager → Result Bool × SessionManager
  unfolding in_session revoke_each forget_session
  end_session key s =
      if Dict.has s.sessions key
      then forget_session key (
          revoke_each (in_session key) "session_end" (Dict.keys s.grants)
            (record s { sessions = Dict.remove s.sessions key }))
      else (ok false, s)

  unfoldable pub get_session : String → SessionManager → Result (Option Session) × SessionManager
  unfolding end_session after_end
  get_session key s = elim (Dict.get s.sessions key) [
    | none ↦ (ok none, s)
    | some x ↦ if is_expired now x then after_end (end_session key s) else (ok (some x), s)
  ]

  unfoldable pub revoke_all_for_principal :
      String → String → SessionManager → Result ℕ × SessionManager
  unfolding of_principal revoke_each
  revoke_all_for_principal principal by s =
      revoke_each (of_principal principal) by (Dict.keys s.grants) s
