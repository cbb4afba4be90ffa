-- ===== src/Transactions/Block.antt =====
-- The calls that a `with` block makes, one by one (kernel/transactions.py).
use Prim.Native.String as S
use terminal_agent.Base.{
  ℕ, ◌≡◌, ◌∙◌, refl, sym, ap, String, Bool, true, false, Option, none, some, [], ◌∷◌, ◌++◌, ◌==◌,
  eq_iff, eq_refl, codes, codes-append, Bool-cases, inl, inr,
}
use terminal_agent.Dict
use terminal_agent.Dict.{Dict, get-put}
use terminal_agent.Platform.{Platform}
use terminal_agent.Result.{ok}
use terminal_agent.Objects.Manager.{snapshot_all, restore_snapshot}
use terminal_agent.Transactions.{
  new_transaction, add_checkpoint, register, begin, abort, settle, restore_then,
}
use terminal_agent.Transactions.Context.{context_is_active, exit}
use terminal_agent.Transactions.State.{
  Transaction, TransactionState, TransactionContext, Checkpoint, Coordinator, World, aborted,
  is_active, truthy, chosen, transaction_id,
}
use terminal_agent.Transactions.Undo.{Found}

-- An identity of a transaction is not the empty text, and is chosen whatever is current.
pub truthy-transaction_id :
    (os : Platform) (c : Coordinator)
    → truthy (some (transaction_id os c)) ≡ some (transaction_id os c)
unfolding truthy transaction_id
truthy-transaction_id os c = elim (Bool-cases (S.◌++◌ "tx:" (os.uuid4_hex8 c.drawn) == "")) [
  | inl e ↦
      let texts : codes "tx:" ++ codes (os.uuid4_hex8 c.drawn) ≡ [] =
        sym (codes-append "tx:" (os.uuid4_hex8 c.drawn)) ∙ ap codes ((eq_iff _ "").0 e) in
      absurd (cc texts)
  | inr e ↦ rw (e, truthy) refl
]

pub chosen-transaction_id :
    (os : Platform) (c d : Coordinator)
    → chosen (some (transaction_id os c)) d ≡ some (transaction_id os c)
unfolding chosen
chosen-transaction_id os c d = rw (truthy-transaction_id os c, chosen) refl

module _ (os : Platform) (taken : ℕ) (w : World) where
  -- the transaction that `begin` registers
  abbrev pub begun : Transaction
  begun = record (new_transaction os taken (transaction_id os w.coordinator)) {
    checkpoints =
        (
          "__initial__",
          (add_checkpoint os taken "__initial__" (transaction_id os w.coordinator)
              (new_transaction os taken (transaction_id os w.coordinator))
              (record w { coordinator = register os taken w.coordinator })).0,
        )
        ∷ [];
  }

  pub begin_lem :
      ((begin os taken w).0.tx_id ≡ transaction_id os w.coordinator)
      × ((begin os taken w).0.committed_here ≡ false)
      × ((begin os taken w).1.manager ≡ (snapshot_all os taken w.manager).1)
      × ((begin os taken w).1.coordinator.active_tx ≡ some (transaction_id os w.coordinator))
      × (Dict.get (begin os taken w).1.coordinator.transactions (transaction_id os w.coordinator)
          ≡ some begun)
  unfolding begin add_checkpoint Dict.put
  begin_lem = (
    refl,
    refl,
    refl,
    refl,
    get-put _ (transaction_id os w.coordinator) (transaction_id os w.coordinator) _
        ∙ rw (eq_refl (transaction_id os w.coordinator)) refl,
  )

module _ (os : Platform) (now : ℕ) (tx_id : Option String) (w : World) (id : String)
    (tx : Transaction) (cp : Checkpoint) where
  -- An abort of an active transaction whose restore does not raise.
  pub abort_restores :
      Found tx_id w.coordinator id tx
      → Dict.get tx.checkpoints "__initial__" ≡ some cp
      → (restore_snapshot now cp.state w.manager).0 ≡ ok tt
      → abort os now tx_id w ≡ (
        ok tt,
        settle os now aborted "transaction.abort" "aborted" id tx
            (record w { manager = (restore_snapshot now cp.state w.manager).1 }),
      )
  unfolding abort restore_then
  abort_restores f has done =
      rw (f.is_chosen, abort, f.is_registered, f.still_active, has, restore_then, done) refl

-- what a block leaves of its transaction: it is settled as `state`, and no transaction is current
pub record IsSettled (state : TransactionState) (id : String) (c : Coordinator) : Type 0 where
  pub tx : Transaction
  pub is_registered : Dict.get c.transactions id ≡ some tx
  pub is_state : tx.state ≡ state
  pub none_current : c.active_tx ≡ none

pub settle-IsSettled :
    (os : Platform) (now : ℕ) (state : TransactionState) (op result id : String) (tx : Transaction)
    (w : World)
    → w.coordinator.active_tx ≡ some id
    → IsSettled state id (settle os now state op result id tx w).coordinator
unfolding settle
settle-IsSettled os now state op result id tx w current = record {
  tx = record tx { state = state; ended_at = some now };
  is_registered = get-put w.coordinator.transactions id id _ ∙ rw (eq_refl id) refl;
  is_state = refl;
  none_current = rw (current, eq_refl id) refl;
}

-- The end of a block whose transaction is no longer active changes nothing.
pub exit_inactive :
    (os : Platform) (now : ℕ) (failed : Bool) (ctx : TransactionContext) (w : World)
    (tx : Transaction)
    → Dict.get w.coordinator.transactions ctx.tx_id ≡ some tx
    → is_active tx ≡ false
    → exit os now failed ctx w ≡ (ok tt, w)
unfolding exit context_is_active
exit_inactive os now true ctx w tx got over = rw (got, exit, context_is_active, over) refl
exit_inactive os now false ctx w tx got over = elim (Bool-cases ctx.committed_here) [
  | inl e ↦ rw (e, exit) refl
  | inr e ↦ rw (e, got, exit, context_is_active, over) refl
]
