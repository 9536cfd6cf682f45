-- ===== src/Trackers.antt =====
-- The three trackers that the risk manager keeps: position_tracker, exposure_tracker, pnl_tracker.
pub mod Position
pub mod Exposure
pub mod Pnl
mod Tests
