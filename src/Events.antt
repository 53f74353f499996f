-- ===== src/Events.antt =====
-- The events component (events/events.c, events/include/events.h).
pub mod State
pub mod Kinds
pub mod Parse
pub mod Sinks
pub mod Ring
mod Tests
