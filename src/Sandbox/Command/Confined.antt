-- ===== src/Sandbox/Command/Confined.antt =====
-- What a worker can reach: every mount of the command line is one that was asked for and allowed.
use tgent.Prelude.{
  String, Bool, true, false, ◌≡◌, refl, ap, ◌⊎◌, inl, inr, Option, none, some, List, [], ◌∷◌, ◌++◌,
  map, All, All-append, if◌then◌else◌,
}
use tgent.Result.{Result, ok, err, after, IfOk-ok}
use tgent.Paths.{FilePath, Host, path_text, sort_by, anchor}
use tgent.Paths.Sorted.{sort_by-All}
use tgent.Sandbox.Arguments.{
  Argument, die_with_parent, new_session, unshare_all, clearenv, share_net, chdir, bind, ro_bind,
  setenv, all_words,
}
use tgent.Sandbox.Layout.{RuntimeMount, RuntimeLayout}
use tgent.Sandbox.Requests.{relative_paths, authorize}
use tgent.Sandbox.Requests.Authorized.{mem-relative_paths, authorize-allowed}
use tgent.Sandbox.Mounts.{
  HomeMount, check_home, check_runtime, check_links, check_apart, check_runtime_apart,
}
use tgent.Sandbox.Command.{
  Request, SandboxCommand, Builder, add, project_target, snapshot_project, home_root, home_target,
  with_flag, chosen_layout, check_places, add_links, add_parent_dirs, add_runtime, add_home,
  add_env, home_argument, bind_found, socket_bind, socket_variable, first_arguments, base_arguments,
  make_home, build_arguments, sandbox_arguments, build_sandbox_command,
}
use tgent.Sandbox.Command.Kept.{
  add_parent_dirs-Holds, add_links-Holds, add_runtime-Holds, add_home-Holds, add_env-Holds,
  add-Holds,
}
use tgent.Sandbox.Command.Granted.{
  IsHomeMount, IsRuntimeMount, IsGranted, IsHome, All-Among, check_home-IsHome,
  check_runtime-IsRuntimeMount, with_flag-IsGranted,
}
use tgent.Sandbox.Command.Reader.{read_command_line, read-all_words}

module _ (h : Host) (r : Request) where
  -- The project of the snapshot, at the place of the project.
  abbrev pub IsProject : String → String → Type 0
  IsProject s t = (s ≡ path_text (snapshot_project h r)) × (t ≡ path_text (project_target h r))

  -- The socket of the controller.
  pub record IsSocket (s t : String) : Type 0 where
    pub socket : FilePath
    pub is_given : r.controller_socket ≡ some socket
    pub is_socket : h.is_socket (h.absolute (h.expanduser socket)) ≡ ok true
    pub from : s ≡ path_text (h.absolute (h.expanduser socket))
    pub to : t ≡ "/run/agent-controller.sock"

  abbrev pub IsHomeArgument : List FilePath → List FilePath → String → String → Type 0
  IsHomeArgument requested allowed s t =
      (m : HomeMount) × IsHomeMount h r requested allowed m
      × (s ≡ path_text m.source)
      × (t ≡ path_text m.target)

  abbrev pub IsRuntimeArgument : String → String → Type 0
  IsRuntimeArgument s t =
      (m : RuntimeMount) × IsRuntimeMount h r m
      × (s ≡ path_text m.source)
      × (t ≡ path_text m.target)

  -- The options that let a worker out of its sandbox: the network, and what it may write or read.
  abbrev pub IsAllowed : Argument → Type 0
  IsAllowed share_net = r.policy.network ≡ true
  IsAllowed (bind s t) =
      IsProject s t ⊎ (IsHomeArgument r.home_read_write r.policy.home_read_write s t ⊎ IsSocket s t)
  IsAllowed (ro_bind s t) =
      IsHomeArgument r.home_read_only r.policy.home_read_only s t ⊎ IsRuntimeArgument s t
  IsAllowed _ = Unit

  net-IsAllowed :
      (network : Bool)
      → r.policy.network ≡ network
      → All IsAllowed (if network then share_net ∷ [] else [])
  net-IsAllowed true e = (e, tt)
  net-IsAllowed false e = tt

  -- The sandbox starts isolated: nothing is shared with the host and the environment is empty before
  -- any other option.
  abbrev pub IsIsolated : List Argument → Type 0
  IsIsolated as' =
      (rest : List Argument) × (as' ≡ die_with_parent ∷ new_session ∷ unshare_all ∷ clearenv ∷ rest)

  -- The options of an isolated sandbox, all of which are allowed.
  abbrev Confines : List Argument → Type 0
  Confines as' = IsIsolated as' × All IsAllowed as'

  Confines-more :
      (as' new : List Argument) → Confines as' → All IsAllowed new → Confines (as' ++ new)
  Confines-more as' new ((rest, e), are) ps =
      ((rest ++ new, ap (λ xs. xs ++ new) e), All-append IsAllowed as' new are ps)

  first-IsAllowed : All IsAllowed (first_arguments h r)
  first-IsAllowed =
      All-append IsAllowed (die_with_parent ∷ new_session ∷ unshare_all ∷ clearenv ∷ []) _
        (tt, (tt, (tt, (tt, tt)))) (net-IsAllowed r.policy.network refl)

  first-Confines : Confines (first_arguments h r)
  first-Confines = ((_, refl), first-IsAllowed)

  home-IsAllowed :
      (m : HomeMount) (flag : Bool)
      → m.read_only ≡ flag
      → IsHome h r m flag
      → IsAllowed (home_argument m)
  unfolding IsHome
  home-IsAllowed m true e g = rw e (inl (m, g, refl, refl))
  home-IsAllowed m false e g = rw e (inr (inl (m, g, refl, refl)))

  abbrev AllAllowed : Builder → Type 0
  AllAllowed b = Confines b.arguments

  found-IsAllowed :
      (socket : FilePath) (b : Builder) (found : Result Bool) {b' : Builder}
      → r.controller_socket ≡ some socket
      → h.is_socket (h.absolute (h.expanduser socket)) ≡ found
      → bind_found h r (h.absolute (h.expanduser socket)) found b ≡ ok b'
      → AllAllowed b
      → AllAllowed b'
  found-IsAllowed socket b (ok true) given is_socket e hb =
      IfOk-ok AllAllowed (bind_found h r (h.absolute (h.expanduser socket)) (ok true) b) e (
        add-Holds IsAllowed Confines Confines-more (λ p. tt) (bind _ _ ∷ []) b
          (
            inr (
                inr (record {
                  socket = socket;
                  is_given = given;
                  is_socket = is_socket;
                  from = refl;
                  to = refl;
                })),
            tt,
          )
          hb)
  found-IsAllowed socket b (ok false) given is_socket e hb = cc
  found-IsAllowed socket b (err x) given is_socket e hb = cc

  socket-IsAllowed :
      (socket : Option FilePath) (b : Builder) {b' : Builder}
      → r.controller_socket ≡ socket
      → socket_bind h r socket b ≡ ok b'
      → AllAllowed b
      → AllAllowed b'
  socket-IsAllowed none b given e hb = IfOk-ok AllAllowed (ok b) e hb
  socket-IsAllowed (some socket) b given e hb =
      found-IsAllowed socket b (h.is_socket (h.absolute (h.expanduser socket))) given refl e hb

  variable-IsAllowed : (socket : Option FilePath) → All IsAllowed (socket_variable h r socket)
  variable-IsAllowed none = tt
  variable-IsAllowed (some socket) = (tt, tt)

  runtime-IsAllowed :
      (ms : List RuntimeMount)
      → All (IsRuntimeMount h r) ms
      → All (λ (m : RuntimeMount). IsAllowed (ro_bind (path_text m.source) (path_text m.target))) ms
  runtime-IsAllowed [] are = tt
  runtime-IsAllowed (m ∷ ms) are = (inr (m, are.0, refl, refl), runtime-IsAllowed ms are.1)

  homes-IsAllowed :
      (ms : List HomeMount)
      → All (λ (m : HomeMount). IsHome h r m m.read_only) ms
      → All (λ (m : HomeMount). IsAllowed (home_argument m)) ms
  homes-IsAllowed [] are = tt
  homes-IsAllowed (m ∷ ms) are = (home-IsAllowed m m.read_only refl are.0, homes-IsAllowed ms are.1)

  build_arguments-IsAllowed :
      (layout : RuntimeLayout) (runtime : List RuntimeMount) (homes : List HomeMount) {b : Builder}
      → All (IsRuntimeMount h r) runtime
      → All (λ (m : HomeMount). IsHome h r m m.read_only) homes
      → build_arguments h r layout runtime homes ≡ ok b
      → AllAllowed b
  unfolding build_arguments
  build_arguments-IsAllowed layout runtime homes are_runtime are_home e =
      after (add_links layout.symlinks (record { arguments = first_arguments h r; created = [] })) _
        e
        λ b1 e1 r1.
          after
            (add_parent_dirs (home_root h r) (anchor (home_root h r)) (add (base_arguments h r) b1))
            _ r1
            λ b2 e2 r2.
              after
                (add_parent_dirs (project_target h r) (anchor (project_target h r))
                  (make_home h r b2))
                _ r2
                λ b3 e3 r3.
                  after
                    (add_runtime (sort_by (λ (m : RuntimeMount). path_text m.target) runtime) (
                      add
                        (bind (path_text (snapshot_project h r)) (path_text (project_target h r))
                          ∷ [])
                        b3))
                    _ r3
                    λ b4 e4 r4.
                      after
                        (add_home (home_target h r)
                          (sort_by (λ (m : HomeMount). path_text m.target) homes) b4)
                        _ r4
                        λ b5 e5 r5. after (socket_bind h r r.controller_socket b5) _ r5 λ b6 e6 r6.
                          after
                            (add_env r.worker_env (
                              add
                                (setenv "HOME" (path_text (home_target h r))
                                  ∷ (setenv "PATH" "/usr/local/bin:/usr/bin:/bin"
                                      ∷ socket_variable h r r.controller_socket))
                                b6))
                            _ r6
                            λ b7 e7 r7.
                              let h1 =
                                add_links-Holds IsAllowed Confines Confines-more (λ p. tt)
                                  layout.symlinks _ (λ s t. tt) e1 first-Confines in
                              let h2 =
                                add_parent_dirs-Holds IsAllowed Confines Confines-more (λ p. tt)
                                  (home_root h r) _ _ e2
                                  (add-Holds IsAllowed Confines Confines-more (λ p. tt)
                                    (base_arguments h r) b1 (tt, (tt, (tt, (tt, (tt, tt))))) h1) in
                              let h3 =
                                add_parent_dirs-Holds IsAllowed Confines Confines-more (λ p. tt)
                                  (project_target h r) _ _ e3
                                  (Confines-more b2.arguments _ h2 (tt, tt)) in
                              let h4 =
                                add_runtime-Holds IsAllowed Confines Confines-more (λ p. tt)
                                  (sort_by _ runtime) _
                                  (sort_by-All (λ (m : RuntimeMount). path_text m.target)
                                    (λ (m : RuntimeMount).
                                      IsAllowed (ro_bind (path_text m.source) (path_text m.target)))
                                    runtime (runtime-IsAllowed runtime are_runtime))
                                  e4 (Confines-more b3.arguments _ h3 (inl (refl, refl), tt)) in
                              let h5 =
                                add_home-Holds IsAllowed Confines Confines-more (λ p. tt)
                                  (home_target h r) (sort_by _ homes) b4
                                  (sort_by-All (λ (m : HomeMount). path_text m.target)
                                    (λ (m : HomeMount). IsAllowed (home_argument m)) homes
                                    (homes-IsAllowed homes are_home))
                                  e5 h4 in
                              let h6 = socket-IsAllowed r.controller_socket b5 refl e6 h5 in
                              let h7 =
                                add_env-Holds IsAllowed Confines Confines-more (λ p. tt)
                                  r.worker_env _ (λ s t. tt) e7
                                  (Confines-more b6.arguments _ h6
                                    (tt, (tt, variable-IsAllowed r.controller_socket))) in
                              IfOk-ok AllAllowed
                                (ok (add (chdir (path_text (project_target h r)) ∷ []) b7)) r7
                                (Confines-more b7.arguments _ h7 (tt, tt))

  sandbox_arguments-IsAllowed :
      {as' : List Argument} → sandbox_arguments h r ≡ ok as' → Confines as'
  unfolding sandbox_arguments IsGranted
  sandbox_arguments-IsAllowed e = after (relative_paths r.home_read_only) _ e λ ro is_ro e1.
      after (relative_paths r.home_read_write) _ e1 λ rw' is_rw e2.
        after (relative_paths r.policy.home_read_only) _ e2 λ a_ro is_a_ro e3.
          after (relative_paths r.policy.home_read_write) _ e3 λ a_rw is_a_rw e4.
            after (authorize ro rw' a_ro a_rw) _ e4 λ _ authorized e5.
              after (chosen_layout h r) _ e5 λ layout is_layout e6.
                after (check_runtime h (project_target h r) layout.mounts []) _ e6
                  λ runtime are_runtime e7.
                    after
                      (check_links (map (λ (m : RuntimeMount). m.target) runtime) layout.symlinks
                        [])
                      _ e7
                      λ _ _ e8.
                        after
                          (check_home h (project_target h r) (home_root h r) (home_target h r)
                            (map (with_flag true) ro ++ map (with_flag false) rw'))
                          _ e8
                          λ homes are_home e9. after (check_apart homes) _ e9 λ _ _ e10.
                            after (check_runtime_apart runtime homes) _ e10 λ _ _ e11.
                              after (build_arguments h r layout runtime homes) _ e11 λ b built e12.
                                IfOk-ok Confines (ok b.arguments) e12 (
                                  build_arguments-IsAllowed layout runtime homes
                                    (check_runtime-IsRuntimeMount h r layout is_layout layout.mounts
                                      [] (All-Among layout.mounts layout.mounts (λ m among. among))
                                      are_runtime)
                                    (check_home-IsHome h r
                                      (map (with_flag true) ro ++ map (with_flag false) rw')
                                      (All-append (λ (q : FilePath × Bool). IsGranted h r q.0 q.1)
                                        (map (with_flag true) ro) (map (with_flag false) rw')
                                        (with_flag-IsGranted h r true ro (λ p m. (
                                          mem-relative_paths p r.home_read_only is_ro m,
                                          mem-relative_paths p r.policy.home_read_only is_a_ro (
                                              (authorize-allowed ro rw' a_ro a_rw authorized p).0
                                                m),
                                        )))
                                        (with_flag-IsGranted h r false rw' (λ p m. (
                                          mem-relative_paths p r.home_read_write is_rw m,
                                          mem-relative_paths p r.policy.home_read_write is_a_rw (
                                              (authorize-allowed ro rw' a_ro a_rw authorized p).1
                                                m),
                                        ))))
                                      are_home)
                                    built)

  -- Whatever the paths and the values are, the command line that is built reads back as the command
  -- of the worker behind options that first isolate the sandbox (`--unshare-all` and `--clearenv`)
  -- and are all allowed: the network is shared again only if the policy says so; what is mounted for writing is the project, a home path that is requested and allowed for
  -- writing, or the socket of the controller; what is mounted for reading is a home path that is
  -- requested and allowed for reading, or a mount of the runtime layout.
  pub build_sandbox_command-IsAllowed :
      {built : SandboxCommand}
      → build_sandbox_command h r ≡ ok built
      → (as' : List Argument) × (read_command_line built.argv ≡ some (as', r.command))
        × IsIsolated as'
        × All IsAllowed as'
  unfolding build_sandbox_command
  build_sandbox_command-IsAllowed e = after (check_places h r) _ e λ path _ e1.
      after (sandbox_arguments h r) _ e1 λ as' e2 e3. (
        as',
        IfOk-ok (λ (c : SandboxCommand). read_command_line c.argv ≡ some (as', r.command))
            (ok (record {
              argv = path ∷ all_words as' ++ "--" ∷ r.command;
              project_path = project_target h r;
              home_path = home_target h r;
            }))
            e3 (read-all_words as' r.command),
        (sandbox_arguments-IsAllowed e2).0,
        (sandbox_arguments-IsAllowed e2).1,
      )
