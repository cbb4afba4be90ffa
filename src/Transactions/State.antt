-- ===== src/Transactions/State.antt =====
-- The state of `TransactionCoordinator` and of `TransactionContext`, and the guard of the operations (kernel/transactions.py).
use Prim.Native.String as S
use terminal_agent.Base.{
  ℕ, String, Bool, true, false, Option, none, some, List, [], ◌==◌, show, if◌then◌else◌,
}
use terminal_agent.Dict
use terminal_agent.Dict.{Dict}
use terminal_agent.Platform.{Platform}
use terminal_agent.Value.{Fields}
use terminal_agent.Result.{Result, ok, raise, transaction_error, transaction_not_active}
use terminal_agent.Audit.Log.{AuditLog, set_transaction_context, clear_transaction_context}
use terminal_agent.Objects.Snapshot.{ObjectState}
use terminal_agent.Objects.Manager.{Manager}

pub data TransactionState : Type 0 where
  active committed rolled_back aborted : TransactionState

pub record Checkpoint : Type 0 where
  pub id : String
  pub name : String
  pub tx_id : String
  pub timestamp : ℕ
  pub state : Dict ObjectState

pub record Transaction : Type 0 where
  pub id : String
  pub state : TransactionState
  pub checkpoints : Dict Checkpoint
  pub operations : List Fields
  pub started_at : ℕ
  pub ended_at : Option ℕ

abbrev pub is_active_state : TransactionState → Bool
is_active_state active = true
is_active_state committed = false
is_active_state rolled_back = false
is_active_state aborted = false

-- `Transaction.is_active`
abbrev pub is_active : Transaction → Bool
is_active tx = is_active_state tx.state

pub record Coordinator : Type 0 where
  pub transactions : Dict Transaction
  pub active_tx : Option String
  pub checkpoint_counter : ℕ
  -- how many transaction identities it has drawn
  pub drawn : ℕ

abbrev pub init : Coordinator
init = record { transactions = []; active_tx = none; checkpoint_counter = 0; drawn = 0 }

pub record World : Type 0 where
  pub coordinator : Coordinator
  pub manager : Manager
  pub audit : Option AuditLog

-- the empty text counts as absent
unfoldable pub truthy : Option String → Option String
truthy none = none
truthy (some s) = if s == "" then none else some s

-- `tx_id or self._active_tx`, where nothing is chosen if that is empty
unfoldable pub chosen : Option String → Coordinator → Option String
chosen tx_id c = elim (truthy tx_id) [ none ↦ truthy c.active_tx | some t ↦ some t ]

-- the guard of `checkpoint`, `rollback` and `commit`
unfoldable pub require_active : Option String → Coordinator → Result (String × Transaction)
require_active tx_id c = elim (chosen tx_id c) [
  | none ↦ raise transaction_error
  | some id ↦ elim (Dict.get c.transactions id) [
    | none ↦ raise (transaction_not_active id)
    | some tx ↦ if is_active tx then ok (id, tx) else raise (transaction_not_active id)
  ]
]

-- `self._audit.set_transaction_context(…)`, if there is a log
abbrev pub in_context : Option String → Option String → Option AuditLog → Option AuditLog
in_context tx_id cp none = none
in_context tx_id cp (some l) = some (set_transaction_context tx_id cp l)

abbrev pub out_of_context : Option AuditLog → Option AuditLog
out_of_context none = none
out_of_context (some l) = some (clear_transaction_context l)

-- `self._active_tx == tx_id`
abbrev pub is_current : Option String → String → Bool
is_current none id = false
is_current (some t) id = t == id

-- what the `with` statement holds
pub record TransactionContext : Type 0 where
  pub tx_id : String
  pub committed_here : Bool

-- `f"cp:{n}"`
abbrev pub checkpoint_id : ℕ → String
checkpoint_id n = S.◌++◌ "cp:" (show n)

-- `f"tx:{uuid.uuid4().hex[:8]}"`
unfoldable pub transaction_id : Platform → Coordinator → String
transaction_id os c = S.◌++◌ "tx:" (os.uuid4_hex8 c.drawn)
