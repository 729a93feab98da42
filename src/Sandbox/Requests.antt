-- ===== src/Sandbox/Requests.antt =====
-- The home paths that a project asks for and those that the policy allows: `_relative_home_path`
-- and the sets of `build_sandbox_command`. A set is a list without repetitions; Python leaves the
-- order of its members open.
pub mod Authorized
use Prim.Native.String.{◌++◌ as text_append}
use tgent.Prelude.{
  String, Bool, true, false, ◌||◌, List, [], ◌∷◌, ◌++◌, any, any_char, nat_eq, if◌then◌else◌, ◌==◌,
}
use tgent.Result.{Result, ok, err, Error, sandbox_error, ◌>>=◌, ◌>>◌, raise_if}
use tgent.Paths.{FilePath, path_text, path_mem, is_absolute, sort_by}

-- `SandboxPolicy`
pub record Policy : Type 0 where
  pub home_read_only : List FilePath
  pub home_read_write : List FilePath
  pub network : Bool

abbrev is_empty : List String → Bool
is_empty [] = true
is_empty (x ∷ xs) = false

-- `part in {"", ".", ".."}`
abbrev pub is_special : String → Bool
is_special part = part == "" || (part == "." || part == "..")

-- `"\\" in text or "\x00" in text`
abbrev pub has_unsafe_char : String → Bool
has_unsafe_char text = any_char (λ c. nat_eq c 92) text || any_char (λ c. nat_eq c 0) text

abbrev invalid_path : FilePath → Error
invalid_path p = sandbox_error (text_append "Invalid home-relative mount path: " (path_text p))

-- `_relative_home_path`
unfoldable pub relative_home_path : FilePath → Result FilePath
relative_home_path p = do
  raise_if (is_absolute p || (is_empty p.parts || any is_special p.parts)) (invalid_path p)
  raise_if (has_unsafe_char (path_text p)) (invalid_path p)
  ok p

-- `set.add`
abbrev pub add_path : FilePath → List FilePath → List FilePath
add_path p ps = if path_mem p ps then ps else p ∷ ps

-- `{_relative_home_path(path) for path in paths}`
unfoldable pub relative_paths : List FilePath → Result (List FilePath)
unfolding relative_home_path
relative_paths [] = ok []
relative_paths (p ∷ ps) = do q ← relative_home_path p; qs ← relative_paths ps; ok (add_path q qs)

-- `ps - qs`
unfoldable pub difference : List FilePath → List FilePath → List FilePath
difference [] qs = []
difference (p ∷ ps) qs = let rest = difference ps qs in if path_mem p qs then rest else p ∷ rest

abbrev pub refuse_first : List FilePath → Result (Unit {0})
refuse_first [] = ok tt
refuse_first (p ∷ ps) = err (
    sandbox_error (
      text_append "Project requested a home mount not authorized by controller policy: "
        (path_text p)))

-- the two tests on the four sets
unfoldable pub authorize :
    List FilePath → List FilePath → List FilePath → List FilePath → Result (Unit {0})
unfolding difference
authorize requested_ro requested_rw allowed_ro allowed_rw = do
  raise_if (any (λ p. path_mem p requested_rw) requested_ro)
      (sandbox_error "A home path cannot be requested with conflicting permissions")
  refuse_first
      (sort_by path_text (difference requested_ro allowed_ro ++ difference requested_rw allowed_rw))
