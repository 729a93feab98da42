-- ===== src/Tests.antt =====
-- The theorems at concrete inputs.
mod Agents
mod Diffs
mod Records
mod Requests
mod Sample
mod Sandboxes
mod Sockets
mod Workers
mod Loops
mod Manifests
