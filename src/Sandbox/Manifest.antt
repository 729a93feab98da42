-- ===== src/Sandbox/Manifest.antt =====
-- `RuntimeManifest`, its dictionary and its reading. A time, its text in UTC with a `Z`, the reading
-- of such a text, and `repr` are parameters.
pub mod ReadBack
use Prim.Native.String.{◌++◌ as text_append}
use tgent.Prelude.{
  ℕ, String, Bool, true, false, not, ◌&&◌, ◌||◌, Option, none, some, List, [], ◌∷◌, map, all_chars,
  is_alnum, nat_eq, if◌then◌else◌, ◌==◌,
}
use tgent.Result.{Result, ok, err, message, sandbox_error, ◌>>=◌, ◌>>◌, raise_if}
use tgent.Json.{
  Json, int, str, arr, obj, Items, nil, cons, Fields, end, field, pos, get_value, keys, of_list,
  eq_nat,
}
use tgent.Protocol.Ids.{same_set}
use tgent.Paths.{FilePath, path_of, path_text}
use tgent.Sandbox.Layout.{RuntimeMount, RuntimeLayout}

-- Times: whether one has a time zone, its text, and the reading of a text.
pub record Clock (Time : Type 0) : Type 0 where
  pub has_zone : Time → Bool
  pub stamp : Time → String
  pub read_stamp : String → Option Time

pub record RuntimeManifest (Time : Type 0) : Type 0 where
  pub version : String
  pub rsync_completed_at : Time
  pub layout : RuntimeLayout

abbrev is_version_char : ℕ → Bool
is_version_char c = is_alnum c || (nat_eq c 46 || (nat_eq c 95 || nat_eq c 45))

abbrev pub is_bad_version : String → Bool
is_bad_version version =
    version == ""
    || ((version == "." || version == "..") || not (all_chars is_version_char version))

abbrev pub mount_json : RuntimeMount → Json
mount_json m =
    obj (field "source" (str (path_text m.source)) (field "target" (str (path_text m.target)) end))

abbrev pub symlink_json : FilePath × String → Json
symlink_json (target, link_target) =
    obj (field "target" (str (path_text target)) (field "link_target" (str link_target) end))

abbrev mount_paths : Json → Json → Result RuntimeMount
mount_paths (str source) (str target) =
    ok (record { source = path_of source; target = path_of target })
mount_paths _ _ = err (sandbox_error "Invalid runtime manifest mount paths")

-- one entry of `raw_mounts`
unfoldable pub mount_of : Json → Result RuntimeMount
mount_of (obj fs) =
    if not (same_set (keys fs) ("source" ∷ "target" ∷ []))
    then err (sandbox_error "Invalid runtime manifest mount")
    else mount_paths (get_value "source" fs) (get_value "target" fs)
mount_of _ = err (sandbox_error "Invalid runtime manifest mount")

abbrev symlink_paths : Json → Json → Result (FilePath × String)
symlink_paths (str target) (str link_target) = ok (path_of target, link_target)
symlink_paths _ _ = err (sandbox_error "Invalid runtime manifest symlink paths")

-- one entry of `raw_symlinks`
unfoldable pub symlink_of : Json → Result (FilePath × String)
symlink_of (obj fs) =
    if not (same_set (keys fs) ("target" ∷ "link_target" ∷ []))
    then err (sandbox_error "Invalid runtime manifest symlink")
    else symlink_paths (get_value "target" fs) (get_value "link_target" fs)
symlink_of _ = err (sandbox_error "Invalid runtime manifest symlink")

-- a loop over entries, up to the first one that is refused
unfoldable pub each_of : {A : Type 0} → (Json → Result A) → Items → Result (List A)
each_of read nil = ok []
each_of read (cons x xs) = do a ← read x; rest ← each_of read xs; ok (a ∷ rest)

abbrev pub lists_of : Json → Json → Result (Items × Items)
lists_of (arr mounts) (arr symlinks) = ok (mounts, symlinks)
lists_of _ _ = err (sandbox_error "Invalid runtime manifest mount lists")

abbrev pub texts_of : Json → Json → Result (String × String)
texts_of (str version) (str stamp) = ok (version, stamp)
texts_of _ _ = err (sandbox_error "Invalid runtime manifest version or timestamp")

module _ {Time : Type 0} (clock : Clock Time) (repr : String → String) where
  -- `__post_init__`
  unfoldable pub post_init : RuntimeManifest Time → Result (RuntimeManifest Time)
  post_init m =
      if is_bad_version m.version
      then err (sandbox_error (text_append "Invalid runtime version: " (repr m.version)))
      else if not (clock.has_zone m.rsync_completed_at)
      then err (sandbox_error "Runtime rsync completion time must include a timezone")
      else ok m

  -- `to_dict`
  unfoldable pub to_dict : RuntimeManifest Time → Fields
  to_dict m = field "schema_version" (int (pos 1)) (
      field "version" (str m.version) (
        field "rsync_completed_at" (str (clock.stamp m.rsync_completed_at)) (
          field "mounts" (arr (of_list (map mount_json m.layout.mounts)))
            (field "symlinks" (arr (of_list (map symlink_json m.layout.symlinks))) end))))

  abbrev pub read_time : Option Time → Result Time
  read_time none = err (sandbox_error "Invalid runtime manifest timestamp")
  read_time (some time) = ok time

  abbrev pub manifest_keys : List String
  manifest_keys = "schema_version" ∷ "version" ∷ "rsync_completed_at" ∷ "mounts" ∷ "symlinks" ∷ []

  -- `from_dict`
  unfoldable pub from_dict : Json → Result (RuntimeManifest Time)
  unfolding mount_of symlink_of each_of post_init
  from_dict (obj fs) = do
    raise_if (not (same_set (keys fs) manifest_keys))
        (sandbox_error "Invalid runtime manifest fields")
    raise_if (not (eq_nat 1 (get_value "schema_version" fs)))
        (sandbox_error "Unsupported runtime manifest schema version")
    texts ← texts_of (get_value "version" fs) (get_value "rsync_completed_at" fs)
    completed_at ← read_time (clock.read_stamp texts.1)
    lists ← lists_of (get_value "mounts" fs) (get_value "symlinks" fs)
    mounts ← each_of mount_of lists.0
    symlinks ← each_of symlink_of lists.1
    post_init (record {
      version = texts.0;
      rsync_completed_at = completed_at;
      layout = record { mounts = mounts; symlinks = symlinks };
    })
  from_dict _ = err (sandbox_error "Invalid runtime manifest fields")

  -- `read_runtime_manifest`, with what `json.load` makes of the file
  unfoldable pub read_runtime_manifest : String → Result Json → Result (RuntimeManifest Time)
  unfolding from_dict
  read_runtime_manifest path (ok value) = from_dict value
  read_runtime_manifest path (err e) = err (
      sandbox_error (
        text_append "Cannot read runtime manifest "
          (text_append path (text_append ": " (message e)))))
