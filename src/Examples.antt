-- ===== src/Examples.antt =====
-- Concrete runs of the definitions, on which the theorems are applied.
pub mod Numbers
mod Wire
mod Sequences
pub mod Fixtures
mod Settings
pub mod Pages
mod Records
mod Runs
mod Threads
mod Sockets
mod Discoveries
mod Requests
