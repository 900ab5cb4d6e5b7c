-- ===== src/Influx.antt =====
-- app/services/influx.py: what a heartbeat becomes in the time series.
pub mod Uptime
pub mod Parse
pub mod Value
pub mod Point
pub mod Write
pub mod Batch
pub mod Counters
