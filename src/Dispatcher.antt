-- ===== src/Dispatcher.antt =====
-- The dispatcher: src/agent_notes/dispatcher. Waker is wake.py, Service the schedule of service.py; the
-- other modules are about them.
pub mod Waker
pub mod Hosting
pub mod Guard
pub mod Service
pub mod Jobs
pub mod Scheduling
pub mod Releasing
