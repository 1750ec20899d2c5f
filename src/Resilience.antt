-- ===== src/Resilience.antt =====
-- internal/resilience: the circuit breaker, its registry, and retries with backoff.
pub mod Breaker
pub mod Registry
pub mod Retry
