-- ===== src/Config/Project/Safe.antt =====
-- The home paths of a configuration that is loaded.
use Prim.Native.String.{◌++◌ as text_append}
use mathlib.Core.Path.{subst}
use tgent.Prelude.{
  ℕ, suc, String, Bool, true, false, not, ◌||◌, ◌≡◌, refl, none, some, List, [], ◌∷◌, arith,
  if◌then◌else◌,
}
use tgent.Result.{ok, project_error, raise_if, after, IfOk-ok}
use tgent.Json.{Json, null, arr, obj, Items, nil, cons, Fields, end}
use tgent.Paths.{FilePath, Host, path_of, path_text, path_mem, join, relative_to, is_absolute}
use tgent.Config.Project.{
  ProjectConfig, Loaded, missing, refused, parsed, is_sensitive, has_link, check_item, check_items,
  requested_paths, require_keys, refuse_overlap, intersection, text_item, get_or, is_version,
  table_of, config_of, config_or, load_project_config,
}

-- A path stays below the home directory and keeps away from what is sensitive there.
abbrev pub is_reserved : Host → (String → String) → FilePath → FilePath → Bool
is_reserved h casefold home p = elim (relative_to (h.resolve (join home p)) home) [
  | none ↦ true
  | some parts ↦ is_sensitive casefold parts
]

module _ (h : Host) (casefold : String → String) (home : FilePath) where
  pub record IsSafe (p : FilePath) : Type 0 where
    pub relative : is_absolute p ≡ false
    pub unlinked : has_link h casefold home (join home p) ≡ false
    pub allowed : is_reserved h casefold home p ≡ false
    pub exists : h.exists (h.resolve (join home p)) ≡ true
    pub regular : (h.is_file (h.resolve (join home p)) || h.is_dir (h.resolve (join home p))) ≡ true

  check_item-same :
      (setting : String) (index : ℕ) (item : String) (seen : List FilePath) {p : FilePath}
      → check_item h casefold home setting index item seen ≡ ok p
      → path_of item ≡ p
  unfolding check_item
  check_item-same setting index item seen e = ground arith

  check_item-IsSafe :
      (setting : String) (index : ℕ) (item : String) (seen : List FilePath) {p : FilePath}
      → check_item h casefold home setting index item seen ≡ ok p
      → IsSafe (path_of item) × (path_mem (h.resolve (join home (path_of item))) seen ≡ false)
  unfolding check_item
  check_item-IsSafe setting index item seen e = (
    record {
      relative = ground arith;
      unlinked = ground arith;
      allowed = ground arith;
      exists = ground arith;
      regular = ground arith;
    },
    ground arith,
  )

  -- The paths are safe, and their resolved paths are distinct.
  abbrev pub AreSafe : List FilePath → List FilePath → Type 0
  AreSafe seen [] = Unit
  AreSafe seen (p ∷ ps) =
      IsSafe p
      × (path_mem (h.resolve (join home p)) seen ≡ false)
      × AreSafe (h.resolve (join home p) ∷ seen) ps

  check_items-AreSafe :
      (setting : String) (index : ℕ) (items : Items) (seen : List FilePath) {ps : List FilePath}
      → check_items h casefold home setting index items seen ≡ ok ps
      → AreSafe seen ps
  unfolding check_items
  check_items-AreSafe setting index nil seen e = IfOk-ok (AreSafe seen) (ok []) e tt
  check_items-AreSafe setting index (cons v vs) seen e =
      after (text_item setting index v) _ e λ item _ e1.
        after (check_item h casefold home setting index item seen) _ e1 λ p is_p e2.
          after
            (check_items h casefold home setting (suc index) vs (h.resolve (join home p) ∷ seen)) _
            e2
            λ ps are_ps e3.
              let facts =
                subst (λ q. IsSafe q × (path_mem (h.resolve (join home q)) seen ≡ false))
                  (check_item-same setting index item seen is_p)
                  (check_item-IsSafe setting index item seen is_p) in
              IfOk-ok (AreSafe seen) (ok (p ∷ ps)) e3 (
                facts.0,
                facts.1,
                check_items-AreSafe setting (suc index) vs (h.resolve (join home p) ∷ seen) are_ps,
              )

  requested_paths-AreSafe :
      (v : Json) (setting : String) {ps : List FilePath}
      → requested_paths h casefold home v setting ≡ ok ps
      → AreSafe [] ps
  unfolding requested_paths
  requested_paths-AreSafe (arr items) setting e = check_items-AreSafe setting 0 items [] e
  requested_paths-AreSafe _ setting e = cc

-- Lists without a common path.
abbrev pub Apart : List FilePath → List FilePath → Type 0
Apart [] qs = Unit
Apart (p ∷ ps) qs = (path_mem p qs ≡ false) × Apart ps qs

intersection-Apart :
    (ps qs : List FilePath) → refuse_overlap (intersection ps qs) ≡ ok tt → Apart ps qs
unfolding intersection
intersection-Apart [] qs e = tt
intersection-Apart (p ∷ ps) qs e = decided (path_mem p qs) refl e (intersection-Apart ps qs)
  where
    decided :
        (both : Bool)
        → path_mem p qs ≡ both
        → refuse_overlap (if both then p ∷ intersection ps qs else intersection ps qs) ≡ ok tt
        → (refuse_overlap (intersection ps qs) ≡ ok tt → Apart ps qs)
        → Apart (p ∷ ps) qs
    decided true is e rest = cc
    decided false is e rest = (is, rest e)

-- The paths of a configuration.
abbrev pub IsSafeConfig : Host → (String → String) → FilePath → ProjectConfig → Type 0
IsSafeConfig h casefold home c =
    AreSafe h casefold home [] c.home_read_only
    × AreSafe h casefold home [] c.home_read_write
    × Apart c.home_read_only c.home_read_write

module _ (h : Host) (casefold : String → String) (root config_path home : FilePath) where
  config_of-IsSafeConfig :
      (fs : Fields) {c : ProjectConfig}
      → config_of h casefold root config_path home fs ≡ ok c
      → IsSafeConfig h casefold home c
  unfolding config_of
  config_of-IsSafeConfig fs e =
      after (require_keys fs ("version" ∷ "home" ∷ []) "top level") _ e λ _ _ e1.
        after
          (raise_if (not (is_version (get_or "version" null fs)))
            (project_error (text_append (path_text config_path) ": version must be 1")))
          _ e1
          λ _ _ e2. after (table_of config_path (get_or "home" (obj end) fs)) _ e2 λ table _ e3.
            after (require_keys table ("read_only" ∷ "read_write" ∷ []) "[home]") _ e3 λ _ _ e4.
              after
                (requested_paths h casefold home (get_or "read_only" (arr nil) table)
                  "home.read_only")
                _ e4
                λ ro is_ro e5.
                  after
                    (requested_paths h casefold home (get_or "read_write" (arr nil) table)
                      "home.read_write")
                    _ e5
                    λ rw' is_rw e6. after (refuse_overlap (intersection ro rw')) _ e6 λ _ apart e7.
                      IfOk-ok (IsSafeConfig h casefold home)
                        (ok (record { root = root; home_read_only = ro; home_read_write = rw' })) e7
                        (
                          requested_paths-AreSafe h casefold home
                              (get_or "read_only" (arr nil) table) "home.read_only" is_ro,
                          requested_paths-AreSafe h casefold home
                              (get_or "read_write" (arr nil) table) "home.read_write" is_rw,
                          intersection-Apart ro rw' apart,
                        )

  config_or-IsSafeConfig :
      (loaded : Loaded) {c : ProjectConfig}
      → config_or h casefold root config_path home loaded ≡ ok c
      → IsSafeConfig h casefold home c
  config_or-IsSafeConfig missing e =
      IfOk-ok (IsSafeConfig h casefold home)
        (ok (record { root = root; home_read_only = []; home_read_write = [] })) e (tt, tt, tt)
  config_or-IsSafeConfig (refused reason) e = cc
  config_or-IsSafeConfig (parsed fs) e = config_of-IsSafeConfig fs e

module _ (h : Host) (casefold : String → String) (read : FilePath → Loaded)
    (project_root home : FilePath) where
  -- The paths of a configuration that is loaded, for reading only and for writing, are relative
  -- paths of existing files or directories below the home directory, reached without a link and not
  -- sensitive; those of one list resolve to distinct places, and no path is in both lists.
  pub load_project_config-AreSafe :
      {c : ProjectConfig}
      → load_project_config h casefold read project_root home ≡ ok c
      → IsSafeConfig h casefold (h.resolve (h.expanduser home)) c
  unfolding load_project_config
  load_project_config-AreSafe e =
      config_or-IsSafeConfig h casefold (h.resolve (h.expanduser project_root))
        (join (h.resolve (h.expanduser project_root)) (path_of ".agent-sandbox.toml"))
        (h.resolve (h.expanduser home))
        (read (join (h.resolve (h.expanduser project_root)) (path_of ".agent-sandbox.toml"))) e
