-- ===== src/Formats.antt =====
-- src/user/event_format.c and src/user/stats_format.c: the JSON lines of events and counters.
pub mod Decimal
pub mod Fields
pub mod Stats
pub mod Event
pub mod Sizes
pub mod Handler
pub mod Samples
pub mod Lines
pub mod Totals
pub mod Summed
pub mod Sums
