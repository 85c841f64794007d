-- ===== src/Dialer.antt =====
-- The predictive dialer: src/dialer/dialer.service.ts and src/dialer/locks/lock.service.ts.
pub mod State
pub mod Async
pub mod Control
pub mod Blast
pub mod Stasis
pub mod StateChange
pub mod Destroy
pub mod Dtmf
mod Tests
