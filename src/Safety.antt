-- ===== src/Safety.antt =====
-- The analysis of ownership, src/safety.c and include/safety.h.
mod State
mod Checks
mod Walk
mod Exclusive
mod Reports
mod Goes
mod Walked
mod Balanced
mod Borrowing
mod Moving
mod Tests
