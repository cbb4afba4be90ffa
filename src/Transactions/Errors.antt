-- ===== src/Transactions/Errors.antt =====
-- Calls on transactions that are unknown or have ended (kernel/transactions.py).
use terminal_agent.Base.{
  ℕ, ◌≡◌, ◌∙◌, refl, String, false, Option, none, some, eq_refl, Option-cases, inl, inr,
}
use terminal_agent.Dict
use terminal_agent.Dict.{get-put}
use terminal_agent.Platform.{Platform}
use terminal_agent.Result.{ok, raise, transaction_not_active, checkpoint_not_found}
use terminal_agent.Transactions.{settle, checkpoint, rollback, commit, abort}
use terminal_agent.Transactions.State.{
  Transaction, World, aborted, is_active, chosen, require_active,
}
use terminal_agent.Transactions.Undo.{Found, require_active-Found}

module _ (os : Platform) (now : ℕ) (tx_id : Option String) (w : World) (id : String) where
  -- the identity stands for no active transaction
  abbrev pub IsInactive : Type 0
  IsInactive =
      (tx : Transaction) → Dict.get w.coordinator.transactions id ≡ some tx → is_active tx ≡ false

  require_active-IsInactive :
      chosen tx_id w.coordinator ≡ some id
      → IsInactive
      → require_active tx_id w.coordinator ≡ raise (transaction_not_active id)
  unfolding require_active
  require_active-IsInactive e h = elim (Option-cases (Dict.get w.coordinator.transactions id)) [
    | inl q ↦ rw (e, require_active, q) refl
    | inr (tx, q) ↦ rw (e, require_active, q, h tx q) refl
  ]

  -- If the chosen identity stands for no active transaction, checkpoint, rollback and commit raise
  -- TransactionNotActive with it and change nothing.
  pub inactive-refused :
      (name : String)
      → chosen tx_id w.coordinator ≡ some id
      → IsInactive
      → (checkpoint os now name tx_id w ≡ (raise (transaction_not_active id), w))
        × (rollback os now name tx_id w ≡ (raise (transaction_not_active id), w))
        × (commit os now tx_id w ≡ (raise (transaction_not_active id), w))
  unfolding checkpoint rollback commit
  inactive-refused name e h =
      let refused = require_active-IsInactive e h in
      (rw (refused, checkpoint) refl, rw (refused, rollback) refl, rw (refused, commit) refl)

  -- In an active transaction, a rollback to a name without a checkpoint raises CheckpointNotFound
  -- with the name and changes nothing.
  pub rollback_missing :
      (name : String) (tx : Transaction)
      → Found tx_id w.coordinator id tx
      → Dict.get tx.checkpoints name ≡ none
      → rollback os now name tx_id w ≡ (raise (checkpoint_not_found name), w)
  unfolding rollback
  rollback_missing name tx f missing =
      rw (require_active-Found tx_id w.coordinator id tx f, rollback, missing) refl

  -- An abort of a transaction that has ended, committed or not, raises nothing, leaves the objects
  -- as they are, and records the transaction as aborted.
  pub abort_ended :
      (tx : Transaction)
      → chosen tx_id w.coordinator ≡ some id
      → Dict.get w.coordinator.transactions id ≡ some tx
      → is_active tx ≡ false
      → ((abort os now tx_id w).0 ≡ ok tt)
        × ((abort os now tx_id w).1.manager ≡ w.manager)
        × (Dict.get (abort os now tx_id w).1.coordinator.transactions id
            ≡ some (record tx { state = aborted; ended_at = some now }))
  unfolding abort settle
  abort_ended tx e got over =
      let done : abort os now tx_id w
          ≡ (ok tt, settle os now aborted "transaction.abort" "aborted" id tx w) =
        rw (e, abort, got, over) refl in
      rw done (refl, refl, get-put w.coordinator.transactions id id _ ∙ rw (eq_refl id) refl)
