-- ===== src/Scripts.antt =====
-- The scripts of the two places: scripts/generate_qr.py and backend/scripts/seed_device.py and provision_nvs.py.
pub mod GenerateQr
pub mod SeedDevice
pub mod ProvisionNvs
pub mod Agreement
