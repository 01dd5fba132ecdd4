-- ===== src/Queue.antt =====
-- internal/target/queue: the delivery queue. `Wheel` is timewheel.go; `Deliver` is one attempt
-- against the target; `Retry` sorts the recipients behind an attempt; `Disk` is the message store.
pub mod Wheel
pub mod Deliver
pub mod Retry
pub mod Disk
pub mod Load
