-- ===== src/Controller/Tools.antt =====
-- The tools that an agent may use: `set_agent_tools`.
pub mod Chosen
use tgent.Prelude.{
  String, Bool, true, false, not, ◌&&◌, Option, none, some, List, [], ◌∷◌, all, if◌then◌else◌,
}
use tgent.Result.{Result, ok, err, Error, controller_error}
use tgent.Dict.{insert}
use tgent.Store.Metadata.{Metadata, State}
use tgent.Store.Files.{get_metadata}
use tgent.Protocol.Ids.{is_mcp_name, has_duplicates, subset_text}
use tgent.Controller.State.{
  Controller, Action, gets, query, ◌>>=◌, modify, runtime_of, is_live, is_reportable,
}
use tgent.Controller.Review.{resolve_agent_id}

-- `available`, from the names of the entry points of the group `tgit_agent.mcp_servers`
unfoldable pub available : List String → List String
available [] = []
available (name ∷ names) =
    let rest = available names in if is_mcp_name name then name ∷ rest else rest

-- the tests on the names
abbrev pub name_tests : List String → Result (Unit {0})
name_tests tools =
    if not (all is_mcp_name tools)
    then err (controller_error "tools must be MCP module names such as mcp_example")
    else if has_duplicates tools
    then err (controller_error "tools must not contain duplicates")
    else ok tt

-- the tests on the agent, and that the tools are installed
abbrev pub agent_tests : List String → List String → State → Bool → Result (Unit {0})
agent_tests installed tools state live =
    if not (is_reportable state)
    then err (controller_error "Tools can only be changed for a live agent")
    else if not live
    then err (controller_error "Tools can only be changed for a live agent")
    else if not (subset_text tools (available installed))
    then err (controller_error "Requested MCP module is not installed in the agent runtime")
    else ok tt

abbrev pub allow : String → List String → Controller → Controller
allow agent_id tools c = record c { allowlists = insert agent_id tools c.allowlists }

abbrev pub set_for : List String → List String → String → Metadata → Action (Unit {0})
set_for installed tools agent_id metadata =
    (λ c. (agent_tests installed tools metadata.state (is_live (runtime_of agent_id c)), c))
    >>= (λ _. modify (allow agent_id tools))

abbrev pub set_named : List String → List String → String → Action (Unit {0})
set_named installed tools agent_id =
    query (λ _. name_tests tools)
    >>= (λ _. query (get_metadata agent_id) >>= set_for installed tools agent_id)

-- `set_agent_tools`; `installed` are the names of the entry points
unfoldable pub set_agent_tools : List String → String → List String → Action (Unit {0})
set_agent_tools installed agent_id tools =
    query (resolve_agent_id agent_id) >>= set_named installed tools
