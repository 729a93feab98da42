-- ===== src/Sandbox/Command/Granted.antt =====
-- The mounts that pass the tests of `build_sandbox_command`.
use tgent.Prelude.{Bool, true, false, ◌≡◌, refl, ◌⊎◌, inl, inr, List, [], ◌∷◌, map, arith, All}
use tgent.Result.{ok, >>=-eq-ok, IfOk-ok}
use tgent.Paths.{FilePath, Host, path_mem, join}
use tgent.Paths.Equal.{path_eq_refl}
use tgent.Paths.Within.{path_is_within}
use tgent.Sandbox.Layout.{RuntimeMount, RuntimeLayout}
use tgent.Sandbox.Mounts.{HomeMount, overlap, check_one, check_home, check_runtime, check_mount}
use tgent.Sandbox.Command.{
  Request, project_target, home_root, home_target, with_flag, chosen_layout,
}

-- `m` is one of the mounts.
abbrev pub Among : RuntimeMount → List RuntimeMount → Type 0
Among m [] = ⊥
Among m (n ∷ ms) = (m ≡ n) ⊎ Among m ms

mem_first : (p : FilePath) (ps : List FilePath) → path_mem p (p ∷ ps) ≡ true
unfolding path_mem
mem_first p ps = rw path_eq_refl

mem_rest : (q p : FilePath) (ps : List FilePath) → path_mem q ps ≡ true → path_mem q (p ∷ ps) ≡ true
unfolding path_mem
mem_rest q p ps m = ground arith

pub All-Among :
    (ms all : List RuntimeMount)
    → ((m : RuntimeMount) → Among m ms → Among m all)
    → All (λ m. Among m all) ms
All-Among [] all into = tt
All-Among (m ∷ ms) all into = (into m (inl refl), All-Among ms all (λ n among. into n (inr among)))

module _ (h : Host) (r : Request) where
  -- A home path that is in both lists is mounted at its own place, resolved inside the home
  -- directory and apart from the project.
  pub record IsHomeMount (requested allowed : List FilePath) (m : HomeMount) : Type 0 where
    pub relative : FilePath
    pub is_requested : path_mem relative requested ≡ true
    pub is_allowed : path_mem relative allowed ≡ true
    pub from : m.source ≡ h.resolve (join (home_root h r) relative)
    pub inside : path_is_within m.source (home_root h r) ≡ true
    pub to : m.target ≡ join (home_target h r) relative
    pub apart : overlap m.target (project_target h r) ≡ false

  check_one-eq-ok :
      (relative : FilePath) (flag : Bool) {m : HomeMount}
      → check_one h (project_target h r) (home_root h r) (home_target h r) relative flag ≡ ok m
      → (m.source ≡ h.resolve (join (home_root h r) relative))
        × (path_is_within m.source (home_root h r) ≡ true)
        × (m.target ≡ join (home_target h r) relative)
        × (overlap m.target (project_target h r) ≡ false)
        × (m.read_only ≡ flag)
  unfolding check_one
  check_one-eq-ok relative flag e = ground arith

  -- The mounts that are granted: a path and whether it is read-only.
  unfoldable pub IsGranted : FilePath → Bool → Type 0
  IsGranted p true =
      (path_mem p r.home_read_only ≡ true) × (path_mem p r.policy.home_read_only ≡ true)
  IsGranted p false =
      (path_mem p r.home_read_write ≡ true) × (path_mem p r.policy.home_read_write ≡ true)

  unfoldable pub IsHome : HomeMount → Bool → Type 0
  IsHome m true = IsHomeMount r.home_read_only r.policy.home_read_only m
  IsHome m false = IsHomeMount r.home_read_write r.policy.home_read_write m

  granted-IsHome :
      (relative : FilePath) (flag : Bool) {m : HomeMount}
      → IsGranted relative flag
      → check_one h (project_target h r) (home_root h r) (home_target h r) relative flag ≡ ok m
      → IsHome m m.read_only
  unfolding IsGranted IsHome
  granted-IsHome relative true {m} g e =
      let (from, inside, to, apart, flag) = check_one-eq-ok relative true e in
      rw flag (record {
        relative = relative;
        is_requested = g.0;
        is_allowed = g.1;
        from = from;
        inside = inside;
        to = to;
        apart = apart;
      })
  granted-IsHome relative false {m} g e =
      let (from, inside, to, apart, flag) = check_one-eq-ok relative false e in
      rw flag (record {
        relative = relative;
        is_requested = g.0;
        is_allowed = g.1;
        from = from;
        inside = inside;
        to = to;
        apart = apart;
      })

  pub check_home-IsHome :
      (requests : List (FilePath × Bool)) {ms : List HomeMount}
      → All (λ (q : FilePath × Bool). IsGranted q.0 q.1) requests
      → check_home h (project_target h r) (home_root h r) (home_target h r) requests ≡ ok ms
      → All (λ (m : HomeMount). IsHome m m.read_only) ms
  unfolding check_home
  check_home-IsHome [] gs e = IfOk-ok (All (λ (m : HomeMount). IsHome m m.read_only)) (ok []) e tt
  check_home-IsHome ((relative, flag) ∷ requests) gs e =
      let (m, e1, e2) =
        >>=-eq-ok (check_one h (project_target h r) (home_root h r) (home_target h r) relative flag)
          _ e in
      let (ms, e3, e4) =
        >>=-eq-ok (check_home h (project_target h r) (home_root h r) (home_target h r) requests) _
          e2 in
      IfOk-ok (All (λ (m : HomeMount). IsHome m m.read_only)) (ok (m ∷ ms)) e4
        (granted-IsHome relative flag gs.0 e1, check_home-IsHome requests gs.1 e3)

  -- A runtime mount of the layout, whose directories leave the project alone.
  pub record IsRuntimeMount (m : RuntimeMount) : Type 0 where
    pub layout : RuntimeLayout
    pub is_layout : chosen_layout h r ≡ ok layout
    pub mount : RuntimeMount
    pub listed : Among mount layout.mounts
    pub from : h.resolve_strict (h.expanduser mount.source) ≡ ok m.source
    pub to : m.target ≡ mount.target
    pub spares_project :
        h.is_dir m.source ≡ true → path_is_within (project_target h r) m.target ≡ false

  check_mount-eq-ok :
      (mount : RuntimeMount) (targets : List FilePath) {m : RuntimeMount}
      → check_mount h (project_target h r) mount targets ≡ ok m
      → (h.resolve_strict (h.expanduser mount.source) ≡ ok m.source)
        × (m.target ≡ mount.target)
        × (h.is_dir m.source ≡ true → path_is_within (project_target h r) m.target ≡ false)
  unfolding check_mount
  check_mount-eq-ok mount targets e = ground arith

  pub check_runtime-IsRuntimeMount :
      (layout : RuntimeLayout) (is_layout : chosen_layout h r ≡ ok layout)
      (mounts : List RuntimeMount) (targets : List FilePath) {ms : List RuntimeMount}
      → All (λ m. Among m layout.mounts) mounts
      → check_runtime h (project_target h r) mounts targets ≡ ok ms
      → All IsRuntimeMount ms
  unfolding check_runtime
  check_runtime-IsRuntimeMount layout is_layout [] targets among e =
      IfOk-ok (All IsRuntimeMount) (ok []) e tt
  check_runtime-IsRuntimeMount layout is_layout (mount ∷ mounts) targets among e =
      let (m, e1, e2) = >>=-eq-ok (check_mount h (project_target h r) mount targets) _ e in
      let (ms, e3, e4) =
        >>=-eq-ok (check_runtime h (project_target h r) mounts (mount.target ∷ targets)) _ e2 in
      let (from, to, spares) = check_mount-eq-ok mount targets e1 in
      IfOk-ok (All IsRuntimeMount) (ok (m ∷ ms)) e4 (
        record {
          layout = layout;
          is_layout = is_layout;
          mount = mount;
          listed = among.0;
          from = from;
          to = to;
          spares_project = spares;
        },
        check_runtime-IsRuntimeMount layout is_layout mounts (mount.target ∷ targets) among.1 e3,
      )

  -- The set of a list of paths, all granted with one permission.
  pub with_flag-IsGranted :
      (flag : Bool) (ps : List FilePath)
      → ((p : FilePath) → path_mem p ps ≡ true → IsGranted p flag)
      → All (λ (q : FilePath × Bool). IsGranted q.0 q.1) (map (with_flag flag) ps)
  with_flag-IsGranted flag [] granted = tt
  with_flag-IsGranted flag (p ∷ ps) granted = (
    granted p (mem_first p ps),
    with_flag-IsGranted flag ps (λ q m. granted q (mem_rest q p ps m)),
  )
