-- ===== src/Examples.antt =====
-- The theorems at concrete inputs.
pub mod Setting
mod Runs
mod Functions
mod Table
mod Parts
mod Filters
pub mod Objects
mod Sessions
pub mod Busy
mod Connecting
mod Nodes
