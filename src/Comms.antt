-- ===== src/Comms.antt =====
-- planning_service/comms/: what the gRPC handlers answer.
pub mod Status
pub mod Registry
pub mod Iris
pub mod Streaming
pub mod Viz
