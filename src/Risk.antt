-- ===== src/Risk.antt =====
-- risk_manager.h and risk_manager.cpp: every order passes the limits before it is sent.
pub mod Types
pub mod Checks
pub mod Entry
pub mod Stable
pub mod Limits
pub mod Events
pub mod Rates
pub mod Books
pub mod Shutdown
pub mod Clearing
pub mod Containment
pub mod Bounded
pub mod Histories
pub mod Fixed
pub mod Reach
pub mod Reductions
mod Tests
