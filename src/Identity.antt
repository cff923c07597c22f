-- ===== src/Identity.antt =====
-- Tenants, users, memberships, API keys, identity clients and user sessions
-- (src/shared_integration/identity.py).
pub mod Values
pub mod Tables
pub mod Accounts
pub mod ApiKeys
pub mod Clients
pub mod Sessions
