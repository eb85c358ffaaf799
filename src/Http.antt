-- ===== src/Http.antt =====
-- packages/http: the kernel middleware.
pub mod Middleware
pub mod Router
