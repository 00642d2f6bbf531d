-- ===== src/Telemetry/Ingest.antt =====
-- backend/app/telemetry/ingest.py: the task that drains the queue into the database in batches. A
-- step of the loop is a function of what the queue gave and of the clocks' readings; an exception that
-- nothing catches ends the task.
pub mod Rows
pub mod Flush
pub mod Loop
pub mod Archive
pub mod Stored
pub mod Encoded
pub mod Delivery
pub mod Progress
pub mod Simulation
pub mod Run
pub mod Poison
