-- ===== src/Filter.antt =====
-- interceptor/filter: what the interceptor lets through (sanitizer.py, provider_router.py).
pub mod Sanitizer
pub mod Router
mod Tests
