-- ===== src/Devices.antt =====
-- backend/app/devices: pairing codes (pairing.py), the service (service.py) and the endpoints
-- (routes.py).
pub mod Pairing
pub mod Service
pub mod Routes
pub mod Claiming
pub mod Ownership
