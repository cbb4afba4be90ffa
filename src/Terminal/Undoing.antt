-- ===== src/Terminal/Undoing.antt =====
-- `_cmd_tx` and `_cmd_rollback` (kernel/ui/terminal.py), and what a rollback to the begin restores.
use terminal_agent.Base.{
  ℕ, ◌≡◌, ◌∙◌, refl, sym, ap, subst, String, not, Option, none, some, List, [], ◌∷◌, ◌==◌, select,
  map, length,
}
use terminal_agent.Dict
use terminal_agent.Platform.{Platform}
use terminal_agent.Objects.Registry.{IsNamed}
use terminal_agent.Objects.Steps.{Op}
use terminal_agent.Objects.Rollback.{IsClosed, AllSmall, IsRollback}
use terminal_agent.Transactions.{
  rollback, new_transaction, add_checkpoint, register, get_active_transaction,
}
use terminal_agent.Transactions.State.{
  Transaction, TransactionState, Checkpoint, World, Coordinator, truthy, chosen, transaction_id,
}
use terminal_agent.Transactions.Undo.{Found, rollback_restores}
use terminal_agent.Transactions.Block.{truthy-transaction_id, begun}
use terminal_agent.Transactions.Exit.{in_block, in_block-coordinator, initial_restored}

-- what `_cmd_tx` shows
pub record TransactionView : Type 0 where
  pub id : String
  pub state : TransactionState
  pub started_at : ℕ
  -- the names of the checkpoints, each with the number of its objects
  pub checkpoints : List (String × ℕ)

unfoldable pub view_of : Transaction → TransactionView
view_of tx = record {
  id = tx.id;
  state = tx.state;
  started_at = tx.started_at;
  checkpoints =
      map (λ item. (item.0, length item.1.state))
        (select (λ item. not (item.0 == "__initial__")) tx.checkpoints);
}

unfoldable pub cmd_tx : Coordinator → Option TransactionView
unfolding view_of
cmd_tx c = elim (get_active_transaction c) [ none ↦ none | some tx ↦ some (view_of tx) ]

-- `args[0] if args else "__initial__"`
unfoldable pub checkpoint_name : List String → String
checkpoint_name [] = "__initial__"
checkpoint_name (name ∷ args) = name

module _ (os : Platform) (now : ℕ) where
  -- an exception of the rollback is caught
  unfoldable pub cmd_rollback : List String → World → World
  unfolding checkpoint_name
  cmd_rollback args w = elim (get_active_transaction w.coordinator) [
    | none ↦ w
    | some tx ↦ (rollback os now (checkpoint_name args) none w).1
  ]

module _ (os : Platform) (taken now : ℕ) (w : World) (ops : List Op) where
  -- the transaction that was begun is the current one
  current-Found :
      Found none
        (in_block os taken now w ops).coordinator
        (transaction_id os w.coordinator)
        (begun os taken w)
  unfolding chosen truthy
  current-Found =
      let (current, got) = in_block-coordinator os taken now w ops in
      record {
        is_chosen = ap truthy current ∙ truthy-transaction_id os w.coordinator;
        is_registered = got;
        still_active = refl;
      }

  current-begun :
      get_active_transaction (in_block os taken now w ops).coordinator ≡ some (begun os taken w)
  unfolding get_active_transaction
  current-begun =
      let (current, got) = in_block-coordinator os taken now w ops in
      rw (current, get_active_transaction, truthy-transaction_id os w.coordinator) got

  cmd_rollback-rollback :
      cmd_rollback os now [] (in_block os taken now w ops)
      ≡ (rollback os now "__initial__" none (in_block os taken now w ops)).1
  unfolding cmd_rollback
  cmd_rollback-rollback =
      ap
        (λ (o : Option Transaction). elim o as (λ _. World) [
          | none ↦ in_block os taken now w ops
          | some tx ↦ (rollback os now "__initial__" none (in_block os taken now w ops)).1
        ])
        current-begun

  -- From a registry of named objects whose references are allocated and whose containers are small
  -- enough to be copied: after a transaction has begun and any work on objects, the rollback
  -- command without an argument brings the objects that are still there back to what they were at
  -- the begin, leaves later ones as they are and deleted ones deleted, and keeps the coordinator,
  -- with the transaction current.
  pub cmd_rollback-IsRollback :
      IsNamed w.manager
      → IsClosed w.manager
      → AllSmall os w.manager
      → IsRollback w.manager
          (in_block os taken now w ops).manager
          (cmd_rollback os now [] (in_block os taken now w ops)).manager
        × ((cmd_rollback os now [] (in_block os taken now w ops)).coordinator
            ≡ (in_block os taken now w ops).coordinator)
  unfolding add_checkpoint Dict.get
  cmd_rollback-IsRollback v closed small =
      let b = in_block os taken now w ops in
      let (done, back) = initial_restored os taken now w ops v closed small in
      let cp : Checkpoint =
        (add_checkpoint os taken "__initial__" (transaction_id os w.coordinator)
          (new_transaction os taken (transaction_id os w.coordinator))
          (record w { coordinator = register os taken w.coordinator })).0 in
      let (answer, restored, kept) =
        rollback_restores os now "__initial__" none b (transaction_id os w.coordinator)
          (begun os taken w) cp current-Found refl done in
      rw cmd_rollback-rollback
        (subst (λ m. IsRollback w.manager b.manager m) (sym restored) back, kept)
