-- ===== src/Time.antt =====
-- src/time.c: the civil calendar, RFC 3339 instants and ISO 8601 durations.
pub mod Era
pub mod Calendar
pub mod Text
pub mod Duration
