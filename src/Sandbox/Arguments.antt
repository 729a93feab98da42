-- ===== src/Sandbox/Arguments.antt =====
-- The words of a Bubblewrap command line: each `argv.extend` or `argv.append` of
-- `build_sandbox_command` adds an option with its operands.
use tgent.Prelude.{String, List, [], ◌∷◌, ◌++◌}

pub data Argument : Type 0 where
  die_with_parent new_session unshare_all clearenv share_net : Argument
  dir tmpfs dev proc chdir : String → Argument
  symlink bind ro_bind setenv : String → String → Argument

-- what is appended to `argv`
unfoldable pub words : Argument → List String
words die_with_parent = "--die-with-parent" ∷ []
words new_session = "--new-session" ∷ []
words unshare_all = "--unshare-all" ∷ []
words clearenv = "--clearenv" ∷ []
words share_net = "--share-net" ∷ []
words (dir p) = "--dir" ∷ p ∷ []
words (tmpfs p) = "--tmpfs" ∷ p ∷ []
words (dev p) = "--dev" ∷ p ∷ []
words (proc p) = "--proc" ∷ p ∷ []
words (chdir p) = "--chdir" ∷ p ∷ []
words (symlink s t) = "--symlink" ∷ s ∷ t ∷ []
words (bind s t) = "--bind" ∷ s ∷ t ∷ []
words (ro_bind s t) = "--ro-bind" ∷ s ∷ t ∷ []
words (setenv s t) = "--setenv" ∷ s ∷ t ∷ []

unfoldable pub all_words : List Argument → List String
unfolding words
all_words [] = []
all_words (a ∷ as') = words a ++ all_words as'
