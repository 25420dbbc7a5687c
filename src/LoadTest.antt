-- ===== src/LoadTest.antt =====
-- load-test: the k6 scripts that open a websocket per user and log what they receive.
pub mod Script
mod Tests
