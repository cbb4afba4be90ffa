-- ===== src/Transactions/Context.antt =====
-- `TransactionContext` (kernel/transactions.py).
use terminal_agent.Base.{ℕ, String, Bool, true, false, not, ◌&&◌, Option, none, some, if◌then◌else◌}
use terminal_agent.Dict
use terminal_agent.Platform.{Platform}
use terminal_agent.Result.{Result, ok, raise}
use terminal_agent.Transactions.{checkpoint, rollback, commit, abort}
use terminal_agent.Transactions.State.{Checkpoint, World, TransactionContext, is_active}

-- an exception leaves `_committed` as it is
abbrev pub note_commit :
    TransactionContext → Result (Unit {0}) × World → Result (Unit {0}) × TransactionContext × World
note_commit ctx (raise e, w) = (raise e, ctx, w)
note_commit ctx (ok _, w) = (ok tt, record ctx { committed_here = true }, w)

-- `TransactionContext.commit`
unfoldable pub context_commit :
    Platform → ℕ → TransactionContext → World → Result (Unit {0}) × TransactionContext × World
unfolding commit
context_commit os now ctx w = note_commit ctx (commit os now (some ctx.tx_id) w)

-- `TransactionContext.is_active`, where identities do not repeat
unfoldable pub context_is_active : TransactionContext → World → Bool
context_is_active ctx w = elim (Dict.get w.coordinator.transactions ctx.tx_id) [
  | none ↦ false
  | some tx ↦ is_active tx
]

-- `TransactionContext.checkpoint`
unfoldable pub context_checkpoint :
    Platform → ℕ → String → TransactionContext → World → Result Checkpoint × World
unfolding checkpoint
context_checkpoint os now name ctx w = checkpoint os now name (some ctx.tx_id) w

-- `TransactionContext.rollback`; without a name it is to "__initial__"
unfoldable pub context_rollback :
    Platform → ℕ → Option String → TransactionContext → World → Result (Unit {0}) × World
unfolding rollback
context_rollback os now none ctx w = rollback os now "__initial__" (some ctx.tx_id) w
context_rollback os now (some name) ctx w = rollback os now name (some ctx.tx_id) w

-- `TransactionContext.abort`
unfoldable pub context_abort : Platform → ℕ → TransactionContext → World → Result (Unit {0}) × World
unfolding abort
context_abort os now ctx w = abort os now (some ctx.tx_id) w

module _ (os : Platform) (now : ℕ) where
  -- `TransactionContext.__exit__`; `failed` says whether the block raised, and its exception goes on
  unfoldable pub exit : (failed : Bool) → TransactionContext → World → Result (Unit {0}) × World
  unfolding context_abort context_is_active
  exit failed ctx w =
      if failed
      then (if context_is_active ctx w then context_abort os now ctx w else (ok tt, w))
      else if not ctx.committed_here && context_is_active ctx w
      then context_abort os now ctx w
      else (ok tt, w)
