-- ===== src/Motion.antt =====
-- planning_service/motion/: the planners' own control logic.
pub mod Approaches
pub mod IkCache
pub mod Graph
pub mod Examples
