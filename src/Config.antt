-- ===== src/Config.antt =====
-- agent_project.py and remote_agent_config.py: what a project asks of its sandbox, and where the
-- remote service is.
pub mod Project
pub mod Remote
