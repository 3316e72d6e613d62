-- ===== src/Events.antt =====
-- The event engine, src/server/events.c. Each call of `time(NULL)` and of `rand()` is an argument.
pub mod Tags
pub mod Names
pub mod Spawn
pub mod Leak
pub mod Ticks
mod Tests
