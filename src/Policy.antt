-- ===== src/Policy.antt =====
-- packages/core/src/policy/policy-engine.ts: who may do what, under which policy.
pub mod Engine
pub mod Permitted
pub mod Guards
