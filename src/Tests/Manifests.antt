-- ===== src/Tests/Manifests.antt =====
-- A runtime manifest at concrete values.
use tgent.Prelude.{String, true, ◌≡◌, refl, some, [], ◌∷◌, any_char, all_chars, is_alnum}
use tgent.Result.{ok}
use tgent.Json.{obj}
use tgent.Paths.{FilePath, path_of, path_text, anchor_of, components, split_on, kept, join_texts}
use tgent.Sandbox.Manifest.{Clock, RuntimeManifest, post_init, to_dict, from_dict}
use tgent.Sandbox.Manifest.ReadBack.{IsPlain, from_dict-to_dict}

abbrev clock : Clock String
clock = record { has_zone = λ time. true; stamp = λ time. time; read_stamp = λ text. some text }

abbrev repr : String → String
repr text = text

abbrev app : FilePath
app = record { root = "/"; parts = "srv" ∷ "app" ∷ [] }

abbrev bin : FilePath
bin = record { root = "/"; parts = "bin" ∷ [] }

abbrev manifest : RuntimeManifest String
manifest = record {
  version = "app-1.0";
  rsync_completed_at = "2026-01-02T03:04:05Z";
  layout = record {
    mounts = record { source = app; target = app } ∷ [];
    symlinks = (bin, "usr/bin") ∷ [];
  };
}

app-IsPlain : IsPlain app
unfolding path_of path_text anchor_of components split_on kept join_texts any_char
app-IsPlain = refl

bin-IsPlain : IsPlain bin
unfolding path_of path_text anchor_of components split_on kept join_texts any_char
bin-IsPlain = refl

manifest_valid : post_init clock repr manifest ≡ ok manifest
unfolding post_init all_chars is_alnum
manifest_valid = refl

from_dict-to_dict_example : from_dict clock repr (obj (to_dict clock repr manifest)) ≡ ok manifest
from_dict-to_dict_example =
    from_dict-to_dict clock repr manifest manifest_valid refl ((app-IsPlain, app-IsPlain), tt)
      (bin-IsPlain, tt)
