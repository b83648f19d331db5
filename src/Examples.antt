-- ===== src/Examples.antt =====
-- Runs of the definitions on small inputs, and the theorems applied to them.
mod Blocks
mod Ends
mod Rows
mod Wrap
mod Locks
mod Conflicts
mod Versions
mod Planner
mod Layout
mod Batches
mod Granting
mod Epochs
