-- ===== src/Controller/Lifecycle/Reaped.antt =====
-- What a reaped agent was, and what is left of it.
use mathlib.Core.Path.{subst}
use tgent.Prelude.{
  String, Bool, true, false, not, ◌≡◌, refl, none, eq_refl, ap, sym, ◌∙◌, not-false,
}
use tgent.Result.{Result, ok, err, passed}
use tgent.Dict.{Dict, lookup, erase, lookup-erase}
use tgent.Store.Metadata.{Metadata}
use tgent.Store.Files.{Store, get_metadata, remove}
use tgent.Store.Files.Laws.{remove-eq-ok}
use tgent.Controller.State.{Controller, query, modify, ◌>>◌, runtime_of, is_live}
use tgent.Controller.State.Laws.{>>=-ran}
use tgent.Controller.Lifecycle.{
  reap_agent, reapable, reap_tested, discard, forget, remove_record, put_store, undecided,
  is_reapable,
}

ok-injective : {A : Type 0} (a b : A) → ok a ≡ ok b → a ≡ b
ok-injective a b h = cc

module _ (managed : String → Bool) (removed : String → Result (Unit {0})) (agent_id : String)
    (c : Controller) where
  -- The agent may be reaped.
  pub record MayReap (m : Metadata) : Type 0 where
    pub found : get_metadata agent_id c.store ≡ ok m
    pub ended : is_live (runtime_of agent_id c) ≡ false
    pub inactive : is_reapable m.state ≡ true
    pub decided : undecided m ≡ false
    pub inside : managed m.snapshot_root ≡ true

  tests-MayReap :
      (r : Result Metadata) (m : Metadata)
      → get_metadata agent_id c.store ≡ r
      → reap_tested managed (is_live (runtime_of agent_id c)) r ≡ ok m
      → MayReap m
  tests-MayReap (err e) m found h = cc
  tests-MayReap (ok n) m found h =
      let (ended, h1) = passed (is_live (runtime_of agent_id c)) _ _ m h in
      let (inactive, h2) = passed (not (is_reapable n.state)) _ _ m h1 in
      let (decided, h3) = passed (undecided n) _ _ m h2 in
      let (inside, same) = passed (not (managed n.snapshot_root)) _ _ m h3 in
      subst MayReap (ok-injective n m same) (record {
        found = found;
        ended = ended;
        inactive = not-false (is_reapable n.state) inactive;
        decided = decided;
        inside = not-false (managed n.snapshot_root) inside;
      })

  put_store-ran :
      (r : Result Store) (d : Controller)
      → (put_store r d).0 ≡ ok tt
      → (store : Store) × (r ≡ ok store) × ((put_store r d).1 ≡ record d { store = store })
  put_store-ran (ok store) d h = (store, refl, refl)
  put_store-ran (err e) d h = cc

  erased : {V : Type 0} (d : Dict V) → lookup agent_id (erase agent_id d) ≡ none
  erased d = rw lookup-erase (rw eq_refl)

  -- An agent is reaped only if its worker has ended, its state is one of the four inactive ones, a
  -- submitted patch of it has been decided on, its snapshot lies inside the managed directory and
  -- has been removed; then its record and its runtime are gone.
  pub reap_agent-MayReap :
      (reap_agent managed removed agent_id c).0 ≡ ok tt
      → let c' = (reap_agent managed removed agent_id c).1 in
        (m : Metadata) × MayReap m
        × (removed m.snapshot_root ≡ ok tt)
        × (lookup agent_id c'.store ≡ none)
        × (runtime_of agent_id c' ≡ none)
  unfolding reap_agent remove_record reapable
  reap_agent-MayReap h =
      let (m, tested, e1) =
        >>=-ran (discard removed agent_id) tt (λ c. (reapable managed agent_id c, c)) c h in
      let (_, cleared, e2) =
        >>=-ran (λ _. modify (forget agent_id m) >> remove_record agent_id) tt
          (query (λ _. removed m.snapshot_root)) c
          (ap (λ (p : Result (Unit {0}) × Controller). p.0) (sym e1) ∙ h) in
      let (store, gone, e3) =
        put_store-ran (remove agent_id c.store) (forget agent_id m c)
          (ap (λ (p : Result (Unit {0}) × Controller). p.0) (sym (e1 ∙ e2)) ∙ h) in
      let after = ap (λ (p : Result (Unit {0}) × Controller). p.1) (e1 ∙ e2) ∙ e3 in
      (
        m,
        tests-MayReap (get_metadata agent_id c.store) m refl tested,
        cleared,
        ap (λ (d : Controller). lookup agent_id d.store) after
            ∙ rw (remove-eq-ok agent_id c.store store gone) (erased c.store),
        ap (runtime_of agent_id) after ∙ erased c.runtimes,
      )
