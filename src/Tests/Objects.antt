-- ===== src/Tests/Objects.antt =====
-- The theorems on objects at a registry with one workspace, whose tab list is changed in place after
-- a snapshot (kernel/objects.py).
use terminal_agent.Base.{◌<◌, ◌≡◌, refl, none, some, List, [], ◌∷◌, arith}
use terminal_agent.Dict
use terminal_agent.Result.{ok}
use terminal_agent.Objects.Heap.{Heap, Data, Refs}
use terminal_agent.Objects.Snapshot.{is_large}
use terminal_agent.Objects.Manager.{
  Manager, Creation, Method, init, create, snapshot_all, restore_snapshot, initial_data,
}
use terminal_agent.Objects.Copies.{IsSmall}
use terminal_agent.Objects.Registry.{IsNamed, init-IsNamed, create-IsNamed}
use terminal_agent.Objects.Steps.{Op, run, run-IsNamed}
use terminal_agent.Objects.Rollback.{IsClosed, AllSmall, IsRollback, restore-IsRollback}
use terminal_agent.Tests.Data.{counting}

abbrev pub research : Creation
research = Creation.workspace (some "research")

abbrev pub one_workspace : Manager
one_workspace = (create counting 1 research init none).1

pub one-IsNamed : IsNamed one_workspace
one-IsNamed = create-IsNamed counting 1 none research init init-IsNamed

pub one-IsClosed : IsClosed one_workspace
unfolding create Dict.put
one-IsClosed = ((omega arith, (omega arith, (omega arith, tt))), tt)

pub one-AllSmall : AllSmall counting one_workspace
unfolding create Dict.put is_large
one-AllSmall = ((refl, (refl, (refl, tt))), tt)

abbrev pub changes : List Op
changes =
    Op.call_on 3 "workspace:1" (Method.add_tab "tab:1")
    ∷ Op.create 4 (Creation.tab none none)
    ∷ Op.snapshot_all 5
    ∷ Op.delete 6 "tab:1"
    ∷ []

restore-IsRollback_example :
    ((restore_snapshot 9
        (snapshot_all counting 2 one_workspace).0
        (run counting none changes (snapshot_all counting 2 one_workspace).1)).0
      ≡ ok tt)
    × IsRollback one_workspace
        (run counting none changes (snapshot_all counting 2 one_workspace).1)
        (restore_snapshot 9
          (snapshot_all counting 2 one_workspace).0
          (run counting none changes (snapshot_all counting 2 one_workspace).1)).1
restore-IsRollback_example =
    restore-IsRollback counting none 2 9 one_workspace one-IsNamed one-IsClosed one-AllSmall changes

run-IsNamed_example : IsNamed (run counting none changes one_workspace)
run-IsNamed_example = run-IsNamed counting none changes one_workspace one-IsNamed

-- the workspace's data and the heap that it refers into
abbrev data_and_heap : Data × Heap
data_and_heap = initial_data 1 research init.heap

data-Below : Refs (λ a. a < data_and_heap.1.next) data_and_heap.0
unfolding initial_data
data-Below = (omega arith, (omega arith, (omega arith, tt)))

data-IsSmall : IsSmall counting data_and_heap.1 data_and_heap.0
unfolding initial_data is_large
data-IsSmall = (refl, (refl, (refl, tt)))
