-- ===== src/Tests.antt =====
-- Concrete lists, runs of the methods on them, and the instances of the theorems there.
mod Lists
mod Insertion
mod Walks
mod Queue
mod Memory
mod Tags
mod Threading
mod Finishing
mod Marking
mod Owned
mod Runs
mod Sharing
mod Reclaiming
mod Racing
mod Tracing
