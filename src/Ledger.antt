-- ===== src/Ledger.antt =====
-- The watched-event ledger (src/personal_ai_brain/watched_ledger.py and sql/001_watched_event_ledger.sql).
pub mod Schema
pub mod Ingest
pub mod Delivery
pub mod Session
mod Tests
