-- ===== src/Recommend.antt =====
-- The choice of a country, a city and a server (internal/recommend/recommend.go,
-- internal/catalog/catalog.go).
pub mod Select
pub mod Chosen
pub mod Laws
mod Tests
