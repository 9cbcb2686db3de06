-- ===== src/Service.antt =====
-- The service's job machinery, IRIS jobs and resource registry (planning_service/service).
pub mod Error
pub mod Action
pub mod RequestQueue
pub mod JobRunner
pub mod ResourceManager
pub mod Registry
pub mod Visualizer
pub mod Iris
pub mod Examples
