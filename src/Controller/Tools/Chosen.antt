-- ===== src/Controller/Tools/Chosen.antt =====
-- What holds of an agent whose tools have been set.
use tgent.Prelude.{String, true, false, not, ◌≡◌, sym, ap, ◌∙◌, some, List, all, eq_refl, not-false}
use tgent.Result.{Result, ok, passed}
use tgent.Dict.{lookup, insert, lookup-insert}
use tgent.Store.Metadata.{Metadata}
use tgent.Store.Files.{get_metadata}
use tgent.Protocol.Ids.{is_mcp_name, has_duplicates, subset_text}
use tgent.Controller.State.{Controller, query, ◌>>=◌, modify, runtime_of, is_live, is_reportable}
use tgent.Controller.State.Laws.{>>=-ran}
use tgent.Controller.Review.{resolve_agent_id}
use tgent.Controller.Tools.{
  available, name_tests, agent_tests, allow, set_for, set_named, set_agent_tools,
}

module _ (installed tools : List String) (text : String) (c : Controller) where
  -- The tools may be set for this agent.
  pub record MaySet (id : String) (m : Metadata) : Type 0 where
    pub resolved : resolve_agent_id text c.store ≡ ok id
    pub found : get_metadata id c.store ≡ ok m
    pub names : all is_mcp_name tools ≡ true
    pub distinct : has_duplicates tools ≡ false
    pub reportable : is_reportable m.state ≡ true
    pub live : is_live (runtime_of id c) ≡ true
    pub present : subset_text tools (available installed) ≡ true

  abbrev first : {A : Type 0} → Result A × Controller → Result A
  first p = p.0

  -- The tools of an agent are set only if they are distinct names of installed MCP modules and the
  -- agent has a record with a live state and a running worker; then they are what is allowed to the
  -- agent, and nothing else has changed.
  pub set_agent_tools-MaySet :
      (set_agent_tools installed text tools c).0 ≡ ok tt
      → let c' = (set_agent_tools installed text tools c).1 in
        (id : String) × (m : Metadata) × MaySet id m
        × (lookup id c'.allowlists ≡ some tools)
        × (c' ≡ record c { allowlists = insert id tools c.allowlists })
  unfolding set_agent_tools
  set_agent_tools-MaySet h =
      let (id, resolved, e1) =
        >>=-ran (set_named installed tools) tt (query (resolve_agent_id text)) c h in
      let h1 = ap first (sym e1) ∙ h in
      let (_, named, e2) =
        >>=-ran (λ _. query (get_metadata id) >>= set_for installed tools id) tt
          (query (λ _. name_tests tools)) c h1 in
      let h2 = ap first (sym e2) ∙ h1 in
      let (m, found, e3) = >>=-ran (set_for installed tools id) tt (query (get_metadata id)) c h2 in
      let h3 = ap first (sym e3) ∙ h2 in
      let (_, tested, e4) =
        >>=-ran (λ _. modify (allow id tools)) tt
          (λ c. (agent_tests installed tools m.state (is_live (runtime_of id c)), c)) c h3 in
      let (names, n1) = passed (not (all is_mcp_name tools)) _ _ tt named in
      let (distinct, _) = passed (has_duplicates tools) _ _ tt n1 in
      let (reportable, t1) = passed (not (is_reportable m.state)) _ _ tt tested in
      let (live, t2) = passed (not (is_live (runtime_of id c))) _ _ tt t1 in
      let (present, _) = passed (not (subset_text tools (available installed))) _ _ tt t2 in
      let after = ap (λ (p : Result (Unit {0}) × Controller). p.1) (e1 ∙ (e2 ∙ (e3 ∙ e4))) in
      (
        id,
        m,
        record {
          resolved = resolved;
          found = found;
          names = not-false (all is_mcp_name tools) names;
          distinct = distinct;
          reportable = not-false (is_reportable m.state) reportable;
          live = not-false (is_live (runtime_of id c)) live;
          present = not-false (subset_text tools (available installed)) present;
        },
        ap (λ (d : Controller). lookup id d.allowlists) after ∙ rw lookup-insert (rw eq_refl),
        after,
      )
