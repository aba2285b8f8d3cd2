-- ===== src/Common.antt =====
-- backend/common: the circuit breaker of the database and the retries under it.
pub mod Circuit
pub mod Retries
pub mod Probes
