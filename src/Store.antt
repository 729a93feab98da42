-- ===== src/Store.antt =====
-- agent_store.py: the durable record of each agent. The directory tree below `state_root` is a
-- dictionary of records; a write or a read of a file of the tree does not fail, but for the writes
-- of `create`, whose outcome is an argument.
pub mod Metadata
pub mod Files
