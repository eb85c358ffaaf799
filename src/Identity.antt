-- ===== src/Identity.antt =====
-- packages/identity: tokens and role permissions.
pub mod Jwt
pub mod Rbac
pub mod Resolver
pub mod Sessions
