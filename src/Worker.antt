-- ===== src/Worker.antt =====
-- agent_worker.py: the loop of a worker and its tools.
pub mod Streams
pub mod Text
pub mod Files
pub mod Search
pub mod Edit
pub mod Command
pub mod Catalog
pub mod Context
pub mod Session
pub mod Tools
pub mod Loop
