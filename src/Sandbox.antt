-- ===== src/Sandbox.antt =====
-- agent_sandbox.py: the command line of Bubblewrap that a worker runs under. `Arguments` has
-- its words, `Layout` the runtime mounts of a host, `Manifest` the file that lists them,
-- `Requests` the home paths that a project asks for, `Mounts` the tests on every mount and
-- `Command` `build_sandbox_command`.
pub mod Arguments
pub mod Layout
pub mod Manifest
pub mod Requests
pub mod Mounts
pub mod Command
