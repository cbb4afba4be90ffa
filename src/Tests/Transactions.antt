-- ===== src/Tests/Transactions.antt =====
-- The theorems on transactions at the registry with one workspace (kernel/transactions.py).
use terminal_agent.Base.{◌≡◌, refl, sym, ap, true, false, none, some, List, [], ◌∷◌, eq_iff}
use mathlib.Core.Option.{some-injective}
use terminal_agent.Dict
use terminal_agent.Result.{ok}
use terminal_agent.Objects.Rollback.{IsRollback}
use terminal_agent.Transactions.{begin, checkpoint, rollback}
use terminal_agent.Transactions.Context.{exit, context_commit}
use terminal_agent.Transactions.State.{
  Transaction, TransactionState, World, aborted, committed, active, init, is_active, chosen, truthy,
  transaction_id,
}
use terminal_agent.Transactions.Acts.{acts}
use terminal_agent.Transactions.Undo.{Found, rollback-IsRollback}
use terminal_agent.Transactions.Block.{IsSettled}
use terminal_agent.Transactions.Exit.{in_block, exit-IsRollback, commit-IsSettled}
use terminal_agent.Transactions.Runs as R
use terminal_agent.Transactions.Runs.{HasEnded, IsSpent, IsValid, run-HasEnded, active_tx-IsValid}
use terminal_agent.Tests.Data.{counting, log}
use terminal_agent.Tests.Objects.{one_workspace, one-IsNamed, one-IsClosed, one-AllSmall, changes}

abbrev idle : World
idle = record { coordinator = init; manager = one_workspace; audit = some log }

exit-IsRollback_example :
    ((exit counting 20 true (begin counting 10 idle).0 (in_block counting 10 20 idle changes)).0
      ≡ ok tt)
    × IsRollback one_workspace
        (in_block counting 10 20 idle changes).manager
        (exit counting 20 true
          (begin counting 10 idle).0
          (in_block counting 10 20 idle changes)).1.manager
    × IsSettled aborted
        (begin counting 10 idle).0.tx_id
        (exit counting 20 true
          (begin counting 10 idle).0
          (in_block counting 10 20 idle changes)).1.coordinator
exit-IsRollback_example =
    exit-IsRollback counting 10 20 idle changes true one-IsNamed one-IsClosed one-AllSmall

abbrev after_commit : World
after_commit =
    (context_commit counting 20 (begin counting 10 idle).0 (in_block counting 10 20 idle changes)).2

commit-IsSettled_example :
    ((context_commit counting 20
        (begin counting 10 idle).0
        (in_block counting 10 20 idle changes)).0
      ≡ ok tt)
    × IsSettled committed (begin counting 10 idle).0.tx_id after_commit.coordinator
    × (after_commit.manager ≡ (in_block counting 10 20 idle changes).manager)
    × (exit counting 30 false
          (context_commit counting 20
            (begin counting 10 idle).0
            (in_block counting 10 20 idle changes)).1
          after_commit
        ≡ (ok tt, after_commit))
commit-IsSettled_example = commit-IsSettled counting 10 20 idle changes false 30

abbrev transaction : TransactionState → Transaction
transaction state = record {
  id = "tx:1";
  state = state;
  checkpoints = [];
  operations = [];
  started_at = 5;
  ended_at = none;
}

-- a world whose one transaction is in the given state
abbrev one_transaction : TransactionState → World
one_transaction state = record {
  coordinator = record {
    transactions = ("tx:1", transaction state) ∷ [];
    active_tx = none;
    checkpoint_counter = 0;
    drawn = 0;
  };
  manager = one_workspace;
  audit = some log;
}

is_chosen :
    (state : TransactionState)
    → chosen (some "tx:1") (one_transaction state).coordinator ≡ some "tx:1"
unfolding chosen truthy
is_chosen state = refl

is_registered :
    (state : TransactionState)
    → Dict.get (one_transaction state).coordinator.transactions "tx:1" ≡ some (transaction state)
unfolding Dict.get
is_registered state = refl

one-Found : Found (some "tx:1") (one_transaction active).coordinator "tx:1" (transaction active)
one-Found = record {
  is_chosen = is_chosen active;
  is_registered = is_registered active;
  still_active = refl;
}

abbrev marked : World
marked =
    acts counting changes (checkpoint counting 10 "before" (some "tx:1") (one_transaction active)).1

rollback-IsRollback_example :
    ((rollback counting 20 "before" (some "tx:1") marked).0 ≡ ok tt)
    × IsRollback one_workspace marked.manager
        (rollback counting 20 "before" (some "tx:1") marked).1.manager
    × ((rollback counting 20 "before" (some "tx:1") marked).1.coordinator
        ≡ (checkpoint counting 10 "before" (some "tx:1") (one_transaction active)).1.coordinator)
rollback-IsRollback_example =
    rollback-IsRollback counting 10 20 "before" (some "tx:1") (one_transaction active) "tx:1"
      (transaction active) changes one-Found one-IsNamed one-IsClosed one-AllSmall

committed-inactive :
    (tx : Transaction)
    → Dict.get (one_transaction committed).coordinator.transactions "tx:1" ≡ some tx
    → is_active tx ≡ false
unfolding Dict.get
committed-inactive tx e =
    sym (ap (λ (t : Transaction). is_active t) (some-injective (transaction committed) tx e))

abbrev calls : List R.Call
calls =
    R.begin 30
    ∷ R.acting changes
    ∷ R.checkpoint 31 "a" none
    ∷ R.rollback 32 "a" none
    ∷ R.abort 33 none
    ∷ []

never_drawn : IsSpent counting "tx:1" (one_transaction committed).coordinator
unfolding transaction_id
never_drawn d le e = absurd (cc ((eq_iff (transaction_id counting d) "tx:1").1 e))

run-HasEnded_example :
    HasEnded "tx:1" (R.run counting calls (one_transaction committed)).coordinator
run-HasEnded_example =
    run-HasEnded counting calls (one_transaction committed) "tx:1" never_drawn
      (transaction committed, is_registered committed, refl)

active_tx-IsValid_example : IsValid (R.run counting calls idle).coordinator
active_tx-IsValid_example = active_tx-IsValid counting calls idle refl
