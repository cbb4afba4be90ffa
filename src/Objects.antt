-- ===== src/Objects.antt =====
-- The object manager (kernel/objects.py). Python's dicts and lists are mutable and shared by
-- reference, so the contents of an object's containers stand in a heap.
pub mod Heap
pub mod Object
pub mod Snapshot
pub mod Manager
pub mod Copies
pub mod Restore
pub mod Rollback
pub mod Query
pub mod Apart
pub mod Names
pub mod Methods
pub mod Registry
pub mod Steps
