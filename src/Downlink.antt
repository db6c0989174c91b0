-- ===== src/Downlink.antt =====
-- The durable downlink queue (src/downlink_queue.py).
pub mod Types
pub mod Queue
pub mod Effects
pub mod Delivery
pub mod Retry
pub mod Bucket
pub mod BucketBounds
pub mod Worker
pub mod Sending
mod Examples
