-- ===== src/Ipc.antt =====
-- agent_ipc.py: JSON-RPC over the control socket between the controller and one worker.
pub mod Messages
pub mod Serve
pub mod Client
