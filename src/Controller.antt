-- ===== src/Controller.antt =====
-- agent_controller.py: the lifecycle of the agents of one project. `State` has the controller's
-- fields and the actions on them, the other modules have its methods.
pub mod State
pub mod Worker
pub mod Lifecycle
pub mod Review
pub mod Bulk
pub mod Tools
