-- ===== src/Connector.antt =====
-- MySQLImpl/MySQLConnector.cpp: one connection, driven by the events of its socket.
mod Examples
pub mod State
pub mod Sql
pub mod Results
pub mod Handlers
pub mod Invariant
pub mod History
pub mod Watched
pub mod Termination
pub mod Silence
pub mod Faults
pub mod Delivery
