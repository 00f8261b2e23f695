-- ===== src/Release.antt =====
-- prototype/web-ui/app/release-center: the Canary and the production release.
pub mod Center
pub mod Fields
pub mod Sample
pub mod CanaryGate
pub mod Canary
pub mod ProductionGate
pub mod Production
