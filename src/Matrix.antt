-- ===== src/Matrix.antt =====
-- routing_matrix: the stateless router.
pub mod Model
pub mod Classifier
pub mod Tiers
pub mod Route
pub mod Providers
pub mod Logging
