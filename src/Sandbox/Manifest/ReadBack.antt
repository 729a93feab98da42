-- ===== src/Sandbox/Manifest/ReadBack.antt =====
-- A manifest that is written is read back.
use tgent.Prelude.{String, ◌≡◌, refl, some, List, [], ◌∷◌, map, All}
use tgent.Result.{Result, ok}
use tgent.Json.{Json, obj, keys, get_value, of_list, eq_nat}
use tgent.Protocol.Ids.{same_set}
use tgent.Paths.{FilePath, path_of, path_text}
use tgent.Sandbox.Layout.{RuntimeMount}
use tgent.Sandbox.Manifest.{
  Clock, RuntimeManifest, mount_json, symlink_json, mount_of, symlink_of, each_of, post_init,
  to_dict, from_dict,
}

-- The text of the path stands for the path.
abbrev pub IsPlain : FilePath → Type 0
IsPlain p = path_of (path_text p) ≡ p

abbrev pub IsPlainMount : RuntimeMount → Type 0
IsPlainMount m = IsPlain m.source × IsPlain m.target

abbrev pub IsPlainLink : FilePath × String → Type 0
IsPlainLink l = IsPlain l.0

-- What each entry reads back as, the list reads back as.
each_of-map :
    {A : Type 0} (P : A → Type 0) (write : A → Json) (read : Json → Result A)
    → ((a : A) → P a → read (write a) ≡ ok a)
    → (xs : List A) → All P xs
    → each_of read (of_list (map write xs)) ≡ ok xs
unfolding each_of of_list
each_of-map P write read back [] h = refl
each_of-map P write read back (x ∷ xs) (p, ps) =
    rw (back x p, each_of-map P write read back xs ps) refl

mount_of-mount_json : (m : RuntimeMount) → IsPlainMount m → mount_of (mount_json m) ≡ ok m
unfolding mount_of same_set keys get_value
mount_of-mount_json m (p, q) = λ i. ok (record { source = p i; target = q i })

symlink_of-symlink_json :
    (l : FilePath × String) → IsPlainLink l → symlink_of (symlink_json l) ≡ ok l
unfolding symlink_of same_set keys get_value
symlink_of-symlink_json (target, link_target) p = λ i. ok (p i, link_target)

module _ {Time : Type 0} (clock : Clock Time) (repr : String → String) where
  -- A manifest that passes its own checks is read back from its dictionary as it is, where the text
  -- of its time reads back as the time, and the texts of its paths as the paths.
  pub from_dict-to_dict :
      (m : RuntimeManifest Time)
      → post_init clock repr m ≡ ok m
      → clock.read_stamp (clock.stamp m.rsync_completed_at) ≡ some m.rsync_completed_at
      → All IsPlainMount m.layout.mounts
      → All IsPlainLink m.layout.symlinks
      → from_dict clock repr (obj (to_dict clock repr m)) ≡ ok m
  unfolding from_dict to_dict same_set keys get_value eq_nat
  from_dict-to_dict m valid time mounts links =
      rw
        (
          time,
          each_of-map IsPlainMount mount_json mount_of mount_of-mount_json m.layout.mounts mounts,
          each_of-map IsPlainLink symlink_json symlink_of symlink_of-symlink_json m.layout.symlinks
              links,
          valid,
        )
        refl
