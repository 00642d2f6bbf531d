-- ===== src/Telemetry.antt =====
-- backend/app/telemetry: ingestion from the broker (ingest.py), the history queries (aggregation.py,
-- service.py) and their endpoints (routes.py, schemas.py).
pub mod Ingest
pub mod Aggregation
pub mod Samples
pub mod History
