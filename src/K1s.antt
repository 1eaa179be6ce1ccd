-- ===== src/K1s.antt =====
-- internal/k1s: the client of the k1s controller API.
pub mod Status
pub mod Client
