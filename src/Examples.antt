-- ===== src/Examples.antt =====
-- Concrete instances of the results, and tests.
pub mod Tasks
pub mod Texts
pub mod Queue
pub mod Requests
pub mod Counts
pub mod Pages
pub mod Sweeps
pub mod Sandboxes
pub mod Logs
pub mod Ticks
pub mod Routes
pub mod Drivers
pub mod Agents
pub mod Toggles
