-- ===== src/Extension.antt =====
-- graphql/handler/extension and graphql/cache.go.
pub mod Caches
pub mod Apq
pub mod ComplexityLimit
mod Tests
