-- ===== src/Sandbox/Command/Kept.antt =====
-- What goes over from the options to more options behind them is kept by every step, where the
-- options that the step adds are fit.
use tgent.Prelude.{
  String, Bool, true, false, ◌≡◌, Option, none, some, List, [], ◌∷◌, ◌++◌, All, if◌then◌else◌,
}
use tgent.Result.{ok, >>=-eq-ok, >>-eq-ok, IfOk-ok}
use tgent.Dict.{Dict}
use tgent.Paths.{FilePath, path_text, path_mem, anchor, child, parent, relative_to}
use tgent.Sandbox.Arguments.{Argument, dir, symlink, ro_bind, setenv}
use tgent.Sandbox.Layout.{RuntimeMount}
use tgent.Sandbox.Mounts.{HomeMount}
use tgent.Sandbox.Command.{
  Builder, add, make_dirs, add_parent_dirs, add_links, add_runtime, add_home, home_argument,
  add_env, below, check_variable,
}

module _ (P : Argument → Type 0) (Q : List Argument → Type 0)
    (more : (as' new : List Argument) → Q as' → All P new → Q (as' ++ new))
    (dirs : (p : String) → P (dir p)) where
  abbrev pub Holds : Builder → Type 0
  Holds b = Q b.arguments

  pub add-Holds : (new : List Argument) (b : Builder) → All P new → Holds b → Holds (add new b)
  add-Holds new b ps hb = more b.arguments new hb ps

  make_dirs-Holds :
      (current : FilePath) (components : List String) (b : Builder)
      → Holds b
      → Holds (make_dirs current components b)
  unfolding make_dirs
  make_dirs-Holds current [] b hb = hb
  make_dirs-Holds current (c ∷ cs) b hb =
      make_dirs-Holds (child current c) cs _ (made (path_mem (child current c) b.created))
    where
      made :
          (known : Bool)
          → Holds (
              if known then b else record {
                arguments = b.arguments ++ dir (path_text (child current c)) ∷ [];
                created = child current c ∷ b.created;
              })
      made true = hb
      made false = more b.arguments (dir (path_text (child current c)) ∷ []) hb (dirs _, tt)

  below-Holds :
      (target stop : FilePath) (components : Option (List String)) (b : Builder) {b' : Builder}
      → below target stop components b ≡ ok b'
      → Holds b
      → Holds b'
  below-Holds target stop none b e hb = cc
  below-Holds target stop (some cs) b e hb =
      IfOk-ok Holds (ok (make_dirs stop cs b)) e (make_dirs-Holds stop cs b hb)

  pub add_parent_dirs-Holds :
      (target stop : FilePath) (b : Builder) {b' : Builder}
      → add_parent_dirs target stop b ≡ ok b'
      → Holds b
      → Holds b'
  unfolding add_parent_dirs
  add_parent_dirs-Holds target stop b e hb =
      below-Holds target stop (relative_to (parent target) stop) b e hb

  pub add_links-Holds :
      (links : List (FilePath × String)) (b : Builder) {b' : Builder}
      → ((s t : String) → P (symlink s t))
      → add_links links b ≡ ok b'
      → Holds b
      → Holds b'
  unfolding add_links
  add_links-Holds [] b ps e hb = IfOk-ok Holds (ok b) e hb
  add_links-Holds ((target, text) ∷ links) b ps e hb =
      let (b1, e1, e2) = >>=-eq-ok (add_parent_dirs target (anchor target) b) _ e in
      add_links-Holds links (add (symlink text (path_text target) ∷ []) b1) ps e2
        (add-Holds _ b1 (ps _ _, tt) (add_parent_dirs-Holds target (anchor target) b e1 hb))

  pub add_runtime-Holds :
      (mounts : List RuntimeMount) (b : Builder) {b' : Builder}
      → All (λ (m : RuntimeMount). P (ro_bind (path_text m.source) (path_text m.target))) mounts
      → add_runtime mounts b ≡ ok b'
      → Holds b
      → Holds b'
  unfolding add_runtime
  add_runtime-Holds [] b ps e hb = IfOk-ok Holds (ok b) e hb
  add_runtime-Holds (m ∷ mounts) b ps e hb =
      let (b1, e1, e2) = >>=-eq-ok (add_parent_dirs m.target (anchor m.target) b) _ e in
      add_runtime-Holds mounts (add (ro_bind (path_text m.source) (path_text m.target) ∷ []) b1)
        ps.1 e2
        (add-Holds _ b1 (ps.0, tt) (add_parent_dirs-Holds m.target (anchor m.target) b e1 hb))

  pub add_home-Holds :
      (home_target : FilePath) (mounts : List HomeMount) (b : Builder) {b' : Builder}
      → All (λ (m : HomeMount). P (home_argument m)) mounts
      → add_home home_target mounts b ≡ ok b'
      → Holds b
      → Holds b'
  unfolding add_home
  add_home-Holds home [] b ps e hb = IfOk-ok Holds (ok b) e hb
  add_home-Holds home (m ∷ mounts) b ps e hb =
      let (b1, e1, e2) = >>=-eq-ok (add_parent_dirs m.target home b) _ e in
      add_home-Holds home mounts (add (home_argument m ∷ []) b1) ps.1 e2
        (add-Holds _ b1 (ps.0, tt) (add_parent_dirs-Holds m.target home b e1 hb))

  pub add_env-Holds :
      (env : Dict String) (b : Builder) {b' : Builder}
      → ((s t : String) → P (setenv s t))
      → add_env env b ≡ ok b'
      → Holds b
      → Holds b'
  unfolding add_env
  add_env-Holds [] b ps e hb = IfOk-ok Holds (ok b) e hb
  add_env-Holds ((name, value) ∷ env) b ps e hb =
      let (_, _, e2) = >>-eq-ok (check_variable name value) _ e in
      add_env-Holds env (add (setenv name value ∷ []) b) ps e2 (add-Holds _ b (ps _ _, tt) hb)
