-- ===== src/Failover.antt =====
-- forwardWithFailover of internal/http.go: one request goes from provider to provider. What the loop
-- meets at each provider is a `Visit`; logs and Prometheus counters are not modelled.
pub mod Attribution
pub mod Visit
pub mod Loop
