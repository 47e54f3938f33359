-- ===== src/Metrics.antt =====
-- internal/metrics: the method labels. The Prometheus collectors themselves are not modelled.
pub mod Labels
