-- ===== src/Client.antt =====
-- src/detail/client_impl.hpp and src/detail/client_impl.cpp: the acquisition client.
pub mod State
pub mod Outcome
pub mod Configuration
pub mod Rates
pub mod Record
pub mod Delivery
pub mod Session
pub mod Run
pub mod Lifecycle
pub mod Commands
pub mod Facade
pub mod Closing
