-- ===== src/Upload.antt =====
-- remote_agent_upload.py: the staging and the publication of uploaded projects.
pub mod Manager
