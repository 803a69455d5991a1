-- ===== src/Spec.antt =====
-- internal/spec: the check of requests against the pinned specification.
pub mod Json
pub mod Body
