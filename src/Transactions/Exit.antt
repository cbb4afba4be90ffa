-- ===== src/Transactions/Exit.antt =====
-- A `with` block that begins a transaction: what its end leaves (kernel/transactions.py).
use terminal_agent.Base.{ℕ, ◌≡◌, ◌∙◌, refl, sym, ap, subst, Bool, true, false, none, some, List}
use terminal_agent.Dict
use terminal_agent.Dict.{Dict, get-put}
use terminal_agent.Platform.{Platform}
use terminal_agent.Result.{ok}
use terminal_agent.Objects.Manager.{snapshot_all, restore_snapshot}
use terminal_agent.Objects.Registry.{IsNamed}
use terminal_agent.Objects.Steps.{Op, run}
use terminal_agent.Objects.Rollback.{IsClosed, AllSmall, IsRollback, restore-IsRollback}
use terminal_agent.Transactions.{
  new_transaction, add_checkpoint, register, begin, abort, commit, settle,
}
use terminal_agent.Transactions.Context.{context_commit, note_commit, context_is_active, exit}
use terminal_agent.Transactions.State.{World, aborted, committed, is_active_state, transaction_id}
use terminal_agent.Transactions.Acts.{acts, acts-coordinator, acts-manager}
use terminal_agent.Transactions.Undo.{Found, require_active-Found}
use terminal_agent.Transactions.Block.{
  chosen-transaction_id, begun, begin_lem, abort_restores, IsSettled, settle-IsSettled,
  exit_inactive,
}

module _ (os : Platform) (taken now : ℕ) (w : World) (ops : List Op) where
  -- the block's objects, when it ends
  abbrev pub in_block : World
  in_block = acts os ops (begin os taken w).1

  pub in_block-coordinator :
      (in_block.coordinator.active_tx ≡ some (transaction_id os w.coordinator))
      × (Dict.get in_block.coordinator.transactions (transaction_id os w.coordinator)
          ≡ some (begun os taken w))
  in_block-coordinator =
      let (own, unset, manager, current, got) = begin_lem os taken w in
      rw (acts-coordinator os ops (begin os taken w).1) (current, got)

  in_block-manager : in_block.manager ≡ run os none ops (snapshot_all os taken w.manager).1
  in_block-manager =
      let (own, unset, manager, current, got) = begin_lem os taken w in
      acts-manager os ops (begin os taken w).1 ∙ ap (run os none ops) manager

  pub in_block-Found :
      Found
        (some (transaction_id os w.coordinator))
        in_block.coordinator
        (transaction_id os w.coordinator)
        (begun os taken w)
  in_block-Found = record {
    is_chosen = chosen-transaction_id os w.coordinator in_block.coordinator;
    is_registered = in_block-coordinator.1;
    still_active = refl;
  }

  -- a block that did not commit aborts, whether it raised or not
  exit_aborts :
      (failed : Bool)
      → exit os now failed (begin os taken w).0 in_block
        ≡ abort os now (some (transaction_id os w.coordinator)) in_block
  unfolding exit context_is_active
  exit_aborts true =
      let (own, unset, manager, current, got) = begin_lem os taken w in
      rw (own, exit, context_is_active, in_block-coordinator.1) refl
  exit_aborts false =
      let (own, unset, manager, current, got) = begin_lem os taken w in
      rw (own, unset, exit, context_is_active, in_block-coordinator.1) refl

  -- what the abort restores
  pub initial_restored :
      IsNamed w.manager
      → IsClosed w.manager
      → AllSmall os w.manager
      → ((restore_snapshot now (snapshot_all os taken w.manager).0 in_block.manager).0 ≡ ok tt)
        × IsRollback w.manager in_block.manager
            (restore_snapshot now (snapshot_all os taken w.manager).0 in_block.manager).1
  initial_restored v closed small =
      subst
        (λ m.
          ((restore_snapshot now (snapshot_all os taken w.manager).0 m).0 ≡ ok tt)
          × IsRollback w.manager m (restore_snapshot now (snapshot_all os taken w.manager).0 m).1)
        (sym in_block-manager) (restore-IsRollback os none taken now w.manager v closed small ops)

  -- From a registry of named objects whose references are allocated and whose containers are small
  -- enough to be copied: a block that begins a transaction, then creates and deletes objects,
  -- calls their methods and takes snapshots in any order, but makes no restore, checkpoint or
  -- rollback, and ends without a commit, whether it raised or not, raises nothing itself; objects
  -- that were there at the start and still are read as they did, objects created since are
  -- unchanged and deleted ones stay deleted; its transaction is aborted and no transaction is
  -- current.
  pub exit-IsRollback :
      (failed : Bool)
      → IsNamed w.manager
      → IsClosed w.manager
      → AllSmall os w.manager
      → ((exit os now failed (begin os taken w).0 in_block).0 ≡ ok tt)
        × IsRollback w.manager in_block.manager
            (exit os now failed (begin os taken w).0 in_block).1.manager
        × IsSettled aborted
            (begin os taken w).0.tx_id
            (exit os now failed (begin os taken w).0 in_block).1.coordinator
  unfolding settle add_checkpoint Dict.get
  exit-IsRollback failed v closed small =
      let (own, unset, manager, current, got) = begin_lem os taken w in
      let (done, back) = initial_restored v closed small in
      rw
        (
          exit_aborts failed,
          abort_restores os now (some (transaction_id os w.coordinator)) in_block
              (transaction_id os w.coordinator) (begun os taken w)
              (add_checkpoint os taken "__initial__" (transaction_id os w.coordinator)
                (new_transaction os taken (transaction_id os w.coordinator))
                (record w { coordinator = register os taken w.coordinator })).0
              in_block-Found refl done,
          own,
        )
        (
          refl,
          back,
          settle-IsSettled os now aborted "transaction.abort" "aborted"
              (transaction_id os w.coordinator) (begun os taken w)
              (record in_block {
                manager =
                    (restore_snapshot now (snapshot_all os taken w.manager).0 in_block.manager).1;
              })
              in_block-coordinator.0,
        )

  -- the block's commit
  committing : context_commit os now (begin os taken w).0 in_block ≡ (
    ok tt,
    record (begin os taken w).0 { committed_here = true },
    settle os now committed "transaction.commit" "committed"
        (transaction_id os w.coordinator)
        (begun os taken w)
        in_block,
  )
  unfolding context_commit commit
  committing =
      let (own, unset, manager, current, got) = begin_lem os taken w in
      let done : commit os now (some (begin os taken w).0.tx_id) in_block ≡ (
        ok tt,
        settle os now committed "transaction.commit" "committed" (transaction_id os w.coordinator)
            (begun os taken w) in_block,
      ) =
        ap (λ id. commit os now (some id) in_block) own
        ∙ rw
            (
              require_active-Found (some (transaction_id os w.coordinator)) in_block.coordinator
                  (transaction_id os w.coordinator) (begun os taken w) in_block-Found,
              commit,
            )
            refl in
      ap (note_commit (begin os taken w).0) done

  -- A block that begins a transaction, works on objects and commits raises nothing at the commit,
  -- which leaves the objects as the work left them, the transaction committed and no transaction
  -- current; the end of the block, whether it raised after the commit or not, then changes
  -- nothing.
  pub commit-IsSettled :
      (failed : Bool) (later : ℕ)
      → ((context_commit os now (begin os taken w).0 in_block).0 ≡ ok tt)
        × IsSettled committed
            (begin os taken w).0.tx_id
            (context_commit os now (begin os taken w).0 in_block).2.coordinator
        × ((context_commit os now (begin os taken w).0 in_block).2.manager ≡ in_block.manager)
        × (exit os later failed
              (context_commit os now (begin os taken w).0 in_block).1
              (context_commit os now (begin os taken w).0 in_block).2
            ≡ (ok tt, (context_commit os now (begin os taken w).0 in_block).2))
  commit-IsSettled failed later =
      let (own, unset, manager, current, got) = begin_lem os taken w in
      let settled =
        settle-IsSettled os now committed "transaction.commit" "committed"
          (transaction_id os w.coordinator) (begun os taken w) in_block in_block-coordinator.0 in
      let there =
        subst
          (λ id.
            IsSettled committed id
              (settle os now committed "transaction.commit" "committed"
                (transaction_id os w.coordinator) (begun os taken w) in_block).coordinator)
          (sym own) settled in
      rw committing (
        refl,
        there,
        unfold settle in refl,
        exit_inactive os later failed (record (begin os taken w).0 { committed_here = true }) _
            there.tx there.is_registered (ap is_active_state there.is_state),
      )
