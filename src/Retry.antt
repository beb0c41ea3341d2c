-- ===== src/Retry.antt =====
-- internal/retry: the circuit breaker and the exponential backoff.
pub mod CircuitBreaker
pub mod Backoff
