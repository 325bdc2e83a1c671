-- ===== src/Service.antt =====
-- The managed service on top of the shim (XeryonEtherCAT.Core).
pub mod Formatter
pub mod Errors
pub mod Command
pub mod Act
pub mod Client
pub mod Axis
pub mod State
pub mod Methods
pub mod Loop
