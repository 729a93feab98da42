-- ===== src/Paths/Within.antt =====
-- `_path_is_within` of agent_sandbox.py.
use tgent.Prelude.{Bool, true, false, none, some}
use tgent.Paths.{FilePath, relative_to}

unfoldable pub path_is_within : FilePath → FilePath → Bool
unfolding relative_to
path_is_within path parent = elim (relative_to path parent) [ none ↦ false | some _ ↦ true ]
