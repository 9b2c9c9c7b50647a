-- ===== src/Plane/Hub.antt =====
-- internal/controlplane/nodehub.go: the hub that the nodes connect to.
pub mod Intake
pub mod Delivery
pub mod Connection
pub mod Messages
pub mod Once
pub mod Counted
pub mod Totals
