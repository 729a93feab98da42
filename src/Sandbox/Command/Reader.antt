-- ===== src/Sandbox/Command/Reader.antt =====
-- The reading of a command line: the name of an option that `build_sandbox_command` writes, then as
-- many operands as it writes behind it, whatever they look like, up to the word `--`.
use tgent.Prelude.{
  String, true, false, Option, none, some, List, [], ◌∷◌, ◌++◌, ◌≡◌, refl, ap, ◌∙◌, ◌==◌,
  if◌then◌else◌,
}
use mathlib.Core.List.{append_assoc}
use tgent.Sandbox.Arguments.{
  Argument, die_with_parent, new_session, unshare_all, clearenv, share_net, dir, tmpfs, dev, proc,
  chdir, symlink, bind, ro_bind, setenv, words, all_words,
}

-- What is expected next: an option, or one or two operands of one.
pub data Expected : Type 0 where
  option : Expected
  one : (String → Argument) → Expected
  two : (String → String → Argument) → Expected

-- An option without operands is complete.
pub data Named : Type 0 where
  complete : Argument → Named
  wants : Expected → Named
  unknown : Named

abbrev named_more : String → Named
named_more w =
    if w == "--proc"
    then wants (one proc)
    else if w == "--chdir"
    then wants (one chdir)
    else if w == "--symlink"
    then wants (two symlink)
    else if w == "--bind"
    then wants (two bind)
    else if w == "--ro-bind"
    then wants (two ro_bind)
    else if w == "--setenv"
    then wants (two setenv)
    else unknown

abbrev named : String → Named
named w =
    if w == "--die-with-parent"
    then complete die_with_parent
    else if w == "--new-session"
    then complete new_session
    else if w == "--unshare-all"
    then complete unshare_all
    else if w == "--clearenv"
    then complete clearenv
    else if w == "--share-net"
    then complete share_net
    else if w == "--dir"
    then wants (one dir)
    else if w == "--tmpfs"
    then wants (one tmpfs)
    else if w == "--dev"
    then wants (one dev)
    else named_more w

abbrev onto : Argument → Option (List Argument × List String) → Option (List Argument × List String)
onto a none = none
onto a (some (as', command)) = some (a ∷ as', command)

-- The options and the command behind `--`.
unfoldable pub read : Expected → List String → Option (List Argument × List String)
read expected [] = none
read option (w ∷ ws) = elim (w == "--") [
  | true ↦ some ([], ws)
  | false ↦ elim (named w) [
    | complete a ↦ onto a (read option ws)
    | wants e ↦ read e ws
    | unknown ↦ none
  ]
]
read (one f) (w ∷ ws) = onto (f w) (read option ws)
read (two f) (w ∷ ws) = read (one (f w)) ws

-- The program and what it reads behind its own name.
abbrev pub read_command_line : List String → Option (List Argument × List String)
read_command_line [] = none
read_command_line (program ∷ ws) = read option ws

read-words :
    (a : Argument) (rest : List String) → read option (words a ++ rest) ≡ onto a (read option rest)
unfolding read words
read-words die_with_parent rest = refl
read-words (dir p) rest = refl
read-words (symlink s t) rest = refl
read-words _ rest = refl

-- Whatever the operands are, the options are read as they were written.
pub read-all_words :
    (as' : List Argument) (command : List String)
    → read option (all_words as' ++ "--" ∷ command) ≡ some (as', command)
unfolding all_words read
read-all_words [] command = refl
read-all_words (a ∷ as') command =
    ap (read option) (append_assoc (words a) (all_words as') ("--" ∷ command))
    ∙ read-words a (all_words as' ++ "--" ∷ command)
    ∙ ap (onto a) (read-all_words as' command)
