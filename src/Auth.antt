-- ===== src/Auth.antt =====
-- Authentication and authorisation of the gateway (src/shared_integration/auth.py).
pub mod Limiter
pub mod Access
