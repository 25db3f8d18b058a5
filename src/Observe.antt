-- ===== src/Observe.antt =====
-- internal/observe: the event bus that the API streams and the scenario engine reads, and the fleet's
-- poller.
pub mod Bus
pub mod Snapshot
pub mod Fleet
