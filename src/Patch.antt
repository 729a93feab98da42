-- ===== src/Patch.antt =====
-- git_patch_selection.py: the part of a unified diff that a selection of line numbers keeps.
-- `Lines` reads the diff, `Select` chooses the entries and cuts them into segments, `Build` prints
-- the hunks.
pub mod Lines
pub mod Select
pub mod Build
