-- ===== src/Transactions.antt =====
-- `TransactionCoordinator` (kernel/transactions.py). The coordinator works on
-- the registry and the log that it was given; `World` holds the three.
use Prim.Native.String as S
use terminal_agent.Base.{
  ℕ, ◌+◌, ◌≡◌, String, Bool, true, false, not, ◌&&◌, Option, none, some, List, [], ◌∷◌, ◌==◌,
  select, show, if◌then◌else◌,
}
use terminal_agent.Dict
use terminal_agent.Dict.{Dict}
use terminal_agent.Platform.{Platform}
use terminal_agent.Value.{Fields, end, field, str}
use terminal_agent.Result.{
  Result, ok, raise, transaction_error, transaction_not_found, transaction_not_active,
  checkpoint_not_found,
}
use terminal_agent.Audit.Entry.{system_event}
use terminal_agent.Audit.Log.{AuditLog, log_if, set_transaction_context, clear_transaction_context}
use terminal_agent.Objects.Snapshot.{ObjectState}
use terminal_agent.Objects.Manager.{Manager, snapshot_all, restore_snapshot}
use terminal_agent.Transactions.State.{
  TransactionState, Checkpoint, Transaction, is_active_state, is_active, Coordinator, init, World,
  truthy, chosen, require_active, in_context, out_of_context, is_current, TransactionContext,
  checkpoint_id, transaction_id, active, committed, rolled_back, aborted,
}
pub mod State
pub mod Context
pub mod Acts
pub mod Undo
pub mod Block
pub mod Exit
pub mod States
pub mod Runs
pub mod Errors

module _ (os : Platform) (now : ℕ) where
  -- `Transaction(id=tx_id)`
  abbrev pub new_transaction : String → Transaction
  new_transaction id = record {
    id = id;
    state = active;
    checkpoints = [];
    operations = [];
    started_at = now;
    ended_at = none;
  }

  -- the checkpoint that `begin` and `checkpoint` make, entered into the transaction
  unfoldable pub add_checkpoint : String → String → Transaction → World → Checkpoint × World
  add_checkpoint name id tx w =
      let (state, manager) = snapshot_all os now w.manager in
      let n = w.coordinator.checkpoint_counter + 1 in
      let cp : Checkpoint = record {
        id = checkpoint_id n;
        name = name;
        tx_id = id;
        timestamp = now;
        state = state;
      } in
      let tx' : Transaction = record tx { checkpoints = Dict.put tx.checkpoints name cp } in
      (
        cp,
        record w {
          manager = manager;
          coordinator = record w.coordinator {
            checkpoint_counter = n;
            transactions = Dict.put w.coordinator.transactions id tx';
          };
        },
      )

  -- the registration of a new transaction, which is then the active one
  abbrev pub register : Coordinator → Coordinator
  register c = record c {
    transactions =
        Dict.put c.transactions (transaction_id os c) (new_transaction (transaction_id os c));
    active_tx = some (transaction_id os c);
    drawn = c.drawn + 1;
  }

  unfoldable pub begin : World → TransactionContext × World
  unfolding add_checkpoint
  begin w =
      let id = transaction_id os w.coordinator in
      let (_, w') =
        add_checkpoint "__initial__" id (new_transaction id)
          (record w { coordinator = register w.coordinator }) in
      (
        record { tx_id = id; committed_here = false },
        record w' {
          audit =
              log_if os now (system_event "transaction.begin" "system" id end "started")
                (in_context (some id) none w'.audit);
        },
      )

  unfoldable pub checkpoint : String → Option String → World → Result Checkpoint × World
  unfolding add_checkpoint
  checkpoint name tx_id w = elim (require_active tx_id w.coordinator) [
    | raise e ↦ (raise e, w)
    | ok found ↦
        let (cp, w') = add_checkpoint name found.0 found.1 w in
        (
          ok cp,
          record w' {
            audit =
                log_if os now
                  (system_event "transaction.checkpoint" "system" found.0
                    (field "name" (str name) (field "checkpoint_id" (str cp.id) end)) "created")
                  (in_context (some found.0) (some cp.id) w'.audit);
          },
        )
  ]

  -- `restore_snapshot`, and what follows if it does not raise
  unfoldable pub restore_then : Checkpoint → (World → World) → World → Result (Unit {0}) × World
  restore_then cp after w = elim (restore_snapshot now cp.state w.manager).0 [
    | raise e ↦ (raise e, record w { manager = (restore_snapshot now cp.state w.manager).1 })
    | ok _ ↦ (ok tt, after (record w { manager = (restore_snapshot now cp.state w.manager).1 }))
  ]

  unfoldable pub rollback : String → Option String → World → Result (Unit {0}) × World
  rollback name tx_id w = elim (require_active tx_id w.coordinator) [
    | raise e ↦ (raise e, w)
    | ok found ↦ elim (Dict.get found.1.checkpoints name) [
      | none ↦ (raise (checkpoint_not_found name), w)
      | some cp ↦
          restore_then cp
            (λ v. record v {
              audit =
                  log_if os now
                    (system_event "transaction.rollback" "system" found.0
                      (field "to_checkpoint" (str name) end) "restored")
                    v.audit;
            })
            w
    ]
  ]

  -- the common end of `commit` and `abort`
  unfoldable pub settle : TransactionState → String → String → String → Transaction → World → World
  settle state op result id tx w =
      let c = w.coordinator in
      let tx' : Transaction = record tx { state = state; ended_at = some now } in
      record w {
        coordinator = record c {
          transactions = Dict.put c.transactions id tx';
          active_tx = if is_current c.active_tx id then none else c.active_tx;
        };
        audit = out_of_context (log_if os now (system_event op "system" id end result) w.audit);
      }

  unfoldable pub commit : Option String → World → Result (Unit {0}) × World
  unfolding settle
  commit tx_id w = elim (require_active tx_id w.coordinator) [
    | raise e ↦ (raise e, w)
    | ok found ↦ (ok tt, settle committed "transaction.commit" "committed" found.0 found.1 w)
  ]

  unfoldable pub abort : Option String → World → Result (Unit {0}) × World
  unfolding settle
  abort tx_id w = elim (chosen tx_id w.coordinator) [
    | none ↦ (raise transaction_error, w)
    | some id ↦ elim (Dict.get w.coordinator.transactions id) [
      | none ↦ (raise (transaction_not_found id), w)
      | some tx ↦
          if is_active tx
          then elim (Dict.get tx.checkpoints "__initial__") [
            | none ↦ (ok tt, settle aborted "transaction.abort" "aborted" id tx w)
            | some cp ↦ restore_then cp (settle aborted "transaction.abort" "aborted" id tx) w
          ]
          else (ok tt, settle aborted "transaction.abort" "aborted" id tx w)
    ]
  ]

unfoldable pub get_transaction : String → Coordinator → Option Transaction
get_transaction tx_id c = Dict.get c.transactions tx_id

unfoldable pub get_active_transaction : Coordinator → Option Transaction
get_active_transaction c = elim (truthy c.active_tx) [
  | none ↦ none
  | some id ↦ Dict.get c.transactions id
]

unfoldable pub list_checkpoints : Option String → Coordinator → List String
list_checkpoints tx_id c = elim (chosen tx_id c) [
  | none ↦ []
  | some id ↦ elim (Dict.get c.transactions id) [
    | none ↦ []
    | some tx ↦ select (λ name. not (name == "__initial__")) (Dict.keys tx.checkpoints)
  ]
]
