-- ===== src/Auth.antt =====
-- backend/app/auth: tokens (jwt.py), the Google sign-in (google.py), the session service
-- (service.py) and the dependency that guards the other endpoints (deps.py).
pub mod Jwt
pub mod Lifetime
pub mod Google
pub mod Service
pub mod Deps
pub mod Rotation
pub mod Login
pub mod Guarding
