-- ===== src/Mqtt.antt =====
-- backend/app/mqtt: topics (topics.py), credentials (credentials.py) and the worker (worker.py).
pub mod Topics
pub mod Credentials
pub mod Access
pub mod Worker
