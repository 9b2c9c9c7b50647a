-- ===== src/Plane.antt =====
-- internal/controlplane: the control plane of the network. Its state is the PostgreSQL database,
-- with the connections of the nodes to the hub and what was written to them. A statement that fails
-- within a transaction aborts it in PostgreSQL, whether the code reads its error or not, so that an
-- error which the code drops there is passed on. The clock is read once for a call.
pub mod Tables
pub mod Queue
pub mod Hub
pub mod Provision
pub mod Wallet
pub mod Plans
pub mod Lifecycle
pub mod Roles
pub mod Slots
pub mod Binding
pub mod History
