-- ===== src/Paths.antt =====
-- Paths as the program uses `pathlib`: a path is its anchor and its parts. What depends on the
-- files of a host is a parameter.
mod Names
pub mod Equal
pub mod Sorted
pub mod Within
unfoldable pub use Names.*
use Prim.Native.String.{◌++◌ as text_append}
use tgent.Prelude.{
  String, Bool, true, false, ◌&&◌, Option, none, some, List, [], ◌∷◌, ◌++◌, ◌==◌, if◌then◌else◌,
}
use tgent.Result.{Result}

-- `root` is "", "/" or "//".
pub record FilePath : Type 0 where
  pub root : String
  pub parts : List String

-- What a host answers: `resolve()`, `resolve(strict=True)`, `expanduser()`, `absolute()`, the
-- tests on a path, `S_ISSOCK` of its mode, and `shutil.which`.
pub record Host : Type 0 where
  pub resolve : FilePath → FilePath
  pub resolve_strict : FilePath → Result FilePath
  pub expanduser : FilePath → FilePath
  pub absolute : FilePath → FilePath
  pub is_file : FilePath → Bool
  pub is_dir : FilePath → Bool
  pub is_symlink : FilePath → Bool
  pub exists : FilePath → Bool
  pub is_socket : FilePath → Result Bool
  pub which : String → Option String
  pub home : FilePath

-- `Path(text)`
unfoldable pub path_of : String → FilePath
unfolding anchor_of components
path_of text = record { root = anchor_of text; parts = components text }

-- `str(path)`
unfoldable pub path_text : FilePath → String
unfolding join_texts
path_text p = elim p.parts [
  | [] ↦ if p.root == "" then "." else p.root
  | part ∷ parts ↦ text_append p.root (join_texts "/" (part ∷ parts))
]

-- `path == other`
unfoldable pub path_eq : FilePath → FilePath → Bool
unfolding texts_eq
path_eq p q = p.root == q.root && texts_eq p.parts q.parts

-- `path.is_absolute()`
abbrev pub is_absolute : FilePath → Bool
is_absolute p = if p.root == "" then false else true

-- `Path(path.anchor)`
abbrev pub anchor : FilePath → FilePath
anchor p = record { root = p.root; parts = [] }

-- `path / other`
abbrev pub join : FilePath → FilePath → FilePath
join p q = if is_absolute q then q else record p { parts = p.parts ++ q.parts }

-- `path / name`, for a name with no slash in it
abbrev pub child : FilePath → String → FilePath
child p name = record p { parts = p.parts ++ name ∷ [] }

-- `path.parent`
abbrev pub parent : FilePath → FilePath
parent p = record p { parts = without_last p.parts }

-- `path.name`
abbrev pub name_of : FilePath → String
name_of p = last_or "" p.parts

-- `path.relative_to(other)`: its parts below the other path
unfoldable pub relative_to : FilePath → FilePath → Option (List String)
unfolding strip_parts
relative_to p q = if p.root == q.root then strip_parts q.parts p.parts else none

-- `path in paths`
unfoldable pub path_mem : FilePath → List FilePath → Bool
unfolding path_eq
path_mem p [] = false
path_mem p (q ∷ qs) = if path_eq q p then true else path_mem p qs
