-- ===== src/Transactions/Undo.antt =====
-- A checkpoint, any operations on objects, and a rollback to it (kernel/transactions.py).
use terminal_agent.Base.{
  ℕ, ◌≡◌, ◌∙◌, refl, sym, ap, subst, String, true, Option, none, some, List, eq_refl,
}
use terminal_agent.Dict
use terminal_agent.Dict.{Dict, get-put}
use terminal_agent.Platform.{Platform}
use terminal_agent.Result.{ok}
use terminal_agent.Objects.Manager.{snapshot_all, restore_snapshot}
use terminal_agent.Objects.Registry.{IsNamed}
use terminal_agent.Objects.Steps.{Op, run}
use terminal_agent.Objects.Rollback.{IsClosed, AllSmall, IsRollback, restore-IsRollback}
use terminal_agent.Transactions.{add_checkpoint, checkpoint, rollback, restore_then}
use terminal_agent.Transactions.State.{
  Transaction, Checkpoint, Coordinator, World, is_active, chosen, require_active,
}
use terminal_agent.Transactions.Acts.{acts, acts-coordinator, acts-manager}

-- what the guard found
pub record Found (tx_id : Option String) (c : Coordinator) (id : String) (tx : Transaction)
    : Type 0 where
  pub is_chosen : chosen tx_id c ≡ some id
  pub is_registered : Dict.get c.transactions id ≡ some tx
  pub still_active : is_active tx ≡ true

pub require_active-Found :
    (tx_id : Option String) (c : Coordinator) (id : String) (tx : Transaction)
    → Found tx_id c id tx
    → require_active tx_id c ≡ ok (id, tx)
unfolding require_active
require_active-Found tx_id c id tx f =
    rw (f.is_chosen, require_active, f.is_registered, f.still_active) refl

module _ (os : Platform) (taken : ℕ) (name : String) (tx_id : Option String) (w : World)
    (id : String) (tx : Transaction) where
  checkpoint-Found :
      Found tx_id w.coordinator id tx
      → (checkpoint os taken name tx_id w).1.coordinator
          ≡ (add_checkpoint os taken name id tx w).1.coordinator
        × (checkpoint os taken name tx_id w).1.manager ≡ (snapshot_all os taken w.manager).1
  unfolding checkpoint add_checkpoint
  checkpoint-Found f =
      rw (require_active-Found tx_id w.coordinator id tx f, checkpoint) (refl, refl)

  -- the checkpoint that it made
  abbrev made : Checkpoint
  made = (add_checkpoint os taken name id tx w).0

  -- After a checkpoint the transaction has it, and is found as before.
  add_checkpoint-Found :
      Found tx_id w.coordinator id tx
      → Found tx_id (add_checkpoint os taken name id tx w).1.coordinator id (record tx {
        checkpoints = Dict.put tx.checkpoints name (add_checkpoint os taken name id tx w).0;
      })
  unfolding add_checkpoint chosen
  add_checkpoint-Found f = record {
    is_chosen = f.is_chosen;
    is_registered = get-put w.coordinator.transactions id id _ ∙ rw (eq_refl id) refl;
    still_active = f.still_active;
  }

module _ (os : Platform) (now : ℕ) (name : String) (tx_id : Option String) (w : World) (id : String)
    (tx : Transaction) (cp : Checkpoint) where
  -- A rollback whose restore does not raise.
  pub rollback_restores :
      Found tx_id w.coordinator id tx
      → Dict.get tx.checkpoints name ≡ some cp
      → (restore_snapshot now cp.state w.manager).0 ≡ ok tt
      → ((rollback os now name tx_id w).0 ≡ ok tt)
        × ((rollback os now name tx_id w).1.manager ≡ (restore_snapshot now cp.state w.manager).1)
        × ((rollback os now name tx_id w).1.coordinator ≡ w.coordinator)
  unfolding rollback restore_then
  rollback_restores f has done =
      rw (require_active-Found tx_id w.coordinator id tx f, rollback, has, restore_then, done)
        (refl, refl, refl)

module _ (os : Platform) (taken now : ℕ) (name : String) (tx_id : Option String) (w : World)
    (id : String) (tx : Transaction) (ops : List Op) where
  -- From a registry of named objects whose references are allocated and whose containers are small
  -- enough to be copied: after a checkpoint in an active transaction and any work on objects, a
  -- rollback to the name of the checkpoint raises nothing, the objects of then that are still
  -- there read as they did at the checkpoint, those created since are unchanged and deleted ones
  -- stay deleted, and the coordinator is as the checkpoint left it.
  pub rollback-IsRollback :
      Found tx_id w.coordinator id tx
      → IsNamed w.manager
      → IsClosed w.manager
      → AllSmall os w.manager
      → ((rollback os now name tx_id (acts os ops (checkpoint os taken name tx_id w).1)).0 ≡ ok tt)
        × IsRollback w.manager
            (acts os ops (checkpoint os taken name tx_id w).1).manager
            (rollback os now name tx_id
              (acts os ops (checkpoint os taken name tx_id w).1)).1.manager
        × ((rollback os now name tx_id
              (acts os ops (checkpoint os taken name tx_id w).1)).1.coordinator
            ≡ (checkpoint os taken name tx_id w).1.coordinator)
  rollback-IsRollback f v closed small =
      let (coordinator, manager) = checkpoint-Found os taken name tx_id w id tx f in
      let w' = acts os ops (checkpoint os taken name tx_id w).1 in
      let same = acts-coordinator os ops (checkpoint os taken name tx_id w).1 ∙ coordinator in
      let objects : w'.manager ≡ run os none ops (snapshot_all os taken w.manager).1 =
        acts-manager os ops (checkpoint os taken name tx_id w).1 ∙ ap (run os none ops) manager in
      let found =
        subst
          (λ (c : Coordinator). Found tx_id c id (record tx {
            checkpoints = Dict.put tx.checkpoints name (add_checkpoint os taken name id tx w).0;
          }))
          (sym same) (add_checkpoint-Found os taken name tx_id w id tx f) in
      let (done, back) =
        subst
          (λ m.
            ((restore_snapshot now (snapshot_all os taken w.manager).0 m).0 ≡ ok tt)
            × IsRollback w.manager m (restore_snapshot now (snapshot_all os taken w.manager).0 m).1)
          (sym objects) (restore-IsRollback os none taken now w.manager v closed small ops) in
      let (answer, restored, kept) =
        rollback_restores os now name tx_id w' id _ (add_checkpoint os taken name id tx w).0 found
          (get-put tx.checkpoints name name _ ∙ rw (eq_refl name) refl)
          (unfold add_checkpoint in done) in
      (
        answer,
        subst (λ m. IsRollback w.manager w'.manager m) (sym restored)
            (unfold add_checkpoint in back),
        kept ∙ acts-coordinator os ops (checkpoint os taken name tx_id w).1,
      )
