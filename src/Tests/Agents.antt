-- ===== src/Tests/Agents.antt =====
-- The controller at concrete agents.
use tgent.Prelude.{
  ℕ, String, true, false, ◌≡◌, refl, some, none, [], ◌∷◌, ◌⊎◌, head_char, is_alnum, is_hex,
  all_chars, len, drop_prefix, List,
}
use tgent.Protocol.Ids.{is_word_char}
use tgent.Result.{Result, ok, IsErr}
use tgent.Json.{Json, str, arr, nil, obj, Fields, end, field, pos}
use tgent.Dict.{lookup}
use tgent.Store.Metadata.{Metadata, State, stopped, stopping}
use tgent.Store.Files.{validate_agent_id, remove, Stored, is_agent_id, get_metadata, remove}
use tgent.Store.Files.Laws.{Holds}
use tgent.Controller.Tools.Chosen.{MaySet, set_agent_tools-MaySet}
use tgent.Controller.Tools.{set_agent_tools, available}
use tgent.Dict.{insert}
use tgent.Protocol.Ids.{is_mcp_name, has_duplicates, subset_text, mem_text}
use tgent.Controller.State.{watching, closing, Controller, Runtime, runtime_of, alive}
use tgent.Controller.Worker.{model_complete, update_state}
use tgent.Controller.Worker.Calls.{Charged, model_complete-Charged}
use tgent.Controller.Worker.Reports.{Reported, update_state-Reported}
use tgent.Controller.Lifecycle.{undecided, stop_agent, is_running, recover}
use tgent.Controller.Lifecycle.Stop.{stop_settled, stop_running}
use tgent.Controller.Lifecycle.Recovered.{recover_lem}
use tgent.Controller.Lifecycle.Reaped.{MayReap, reap_agent-MayReap}
use tgent.Controller.Lifecycle.{reap_agent, reapable}
use tgent.Controller.Review.Resolved.{StandsFor, resolve_agent_id-StandsFor}
use tgent.Controller.Bulk.{reap_agents}
use tgent.Controller.Review.{resolve_agent_id, resolve_prefix, matches, starts_lower, acknowledge}
use tgent.Controller.Bulk.Kept.{reap_agents-Kept}
use tgent.Controller.Review.Decisions.{acknowledge-decided}
use tgent.Tests.Sample.{
  metadata_with, stored_with, waiting, busy, runtime_with, two_agents, active, over, waiting-Holds,
  busy-Holds, busy-runtime, over-runtime,
}

reap_agents-Kept_example :
    Holds "a1" waiting (reap_agents (λ _. true) (λ _. ok tt) ("a1" ∷ "b2" ∷ []) active).1.store
reap_agents-Kept_example =
    reap_agents-Kept "a1" waiting (λ _. true) (λ _. ok tt) refl ("a1" ∷ "b2" ∷ []) active
      waiting-Holds

abbrev no_json_size : Json → ℕ
no_json_size v = 0

abbrev answer : Fields → Result Json
answer params = ok (obj params)

abbrev model_request : Fields
model_request = field "messages" (arr nil) end

model_complete-Charged_example :
    let (result, c') = model_complete no_json_size answer "b2" model_request 9 active in
    (IsErr result × (c' ≡ active))
    ⊎ Charged "b2" busy active busy-Holds (runtime_with watching) busy-runtime no_json_size 9 c'
model_complete-Charged_example =
    model_complete-Charged "b2" busy active busy-Holds (runtime_with watching) busy-runtime
      no_json_size 9 answer model_request

abbrev halt_report : Fields
halt_report = field "state" (str "halted") end

update_state-Reported_example :
    let (result, c') = update_state "b2" halt_report 9 active in
    (IsErr result × (c' ≡ active))
    ⊎ ((new_state : State) × (result ≡ ok new_state)
        × Reported "b2" busy active busy-Holds 9 new_state c')
update_state-Reported_example = update_state-Reported "b2" busy active busy-Holds 9 halt_report

stop_running_example :
    let (result, c') = stop_agent "b2" (pos 0) 9 active in
    (m : Metadata) × (result ≡ ok m)
    × (m.state ≡ stopped)
    × (get_metadata "b2" c'.store ≡ ok m)
    × (r' : Runtime) × (runtime_of "b2" c' ≡ some r')
    × (alive r' ≡ false)
    × (r'.serving ≡ false)
stop_running_example =
    stop_running "b2" busy active busy-Holds (runtime_with watching) busy-runtime (pos 0) 9 refl

stop_settled_example :
    let (result, c') = stop_agent "b2" (pos 0) 9 over in
    (m : Metadata) × (result ≡ ok m) × (m.state ≡ stopping) × (get_metadata "b2" c'.store ≡ ok m)
stop_settled_example =
    stop_settled "b2" busy over busy-Holds
      (record (runtime_with closing) { returncode = some (pos 1) }) over-runtime (pos 0) 9 refl

busy-lookup : lookup "b2" two_agents ≡ some busy
busy-lookup = busy-Holds.found

recover_lem_example :
    (t : Stored) × (lookup "b2" (recover 9 two_agents) ≡ some t)
    × (is_running t.metadata.state ≡ false)
    × ((is_running busy.metadata.state ≡ false × (t ≡ busy))
        ⊎ (is_running busy.metadata.state ≡ true
            × (t.metadata.state ≡ stopped)
            × (t.metadata.worker_pid ≡ none)
            × (t.history ≡ busy.history)))
recover_lem_example = recover_lem 9 "b2" two_agents busy busy-lookup

acknowledge-decided_example :
    let (result, c') = acknowledge "a1" 9 active in
    (IsErr result × (c' ≡ active))
    ⊎ ((m : Metadata) × (result ≡ ok m)
        × Holds "a1" (record waiting { metadata = m }) c'.store
        × (undecided m ≡ false)
        × ((later : ℕ) → acknowledge "a1" later c' ≡ (ok m, c')))
acknowledge-decided_example = acknowledge-decided "a1" 9 waiting active waiting-Holds

abbrev no_removal : String → Result (Unit {0})
no_removal path = ok tt

-- An agent without a patch that has been stopped.
abbrev dead : Controller
dead = record active {
  store = ("d4", stored_with (metadata_with "d4" stopped none)) ∷ [];
  runtimes = [];
}

dead_reaped : (reap_agent (λ _. true) no_removal "d4" dead).0 ≡ ok tt
unfolding reap_agent reapable get_metadata is_agent_id head_char is_alnum all_chars is_word_char len
    lookup remove
dead_reaped = refl

reap_agent-MayReap_example :
    let c' = (reap_agent (λ _. true) no_removal "d4" dead).1 in
    (m : Metadata) × MayReap (λ _. true) no_removal "d4" dead m
    × (no_removal "/snapshots/1" ≡ ok tt)
    × (lookup "d4" c'.store ≡ none)
    × (runtime_of "d4" c' ≡ none)
reap_agent-MayReap_example = reap_agent-MayReap (λ _. true) no_removal "d4" dead dead_reaped

prefix_resolved : resolve_agent_id "B" two_agents ≡ ok "b2"
unfolding resolve_agent_id validate_agent_id is_agent_id head_char is_alnum all_chars is_word_char
    len get_metadata lookup resolve_prefix is_hex matches starts_lower
prefix_resolved = refl

resolve_agent_id-StandsFor_example : StandsFor "B" "b2" two_agents
resolve_agent_id-StandsFor_example = resolve_agent_id-StandsFor "B" "b2" two_agents prefix_resolved

abbrev installed : List String
installed = "mcp_test_runner" ∷ "mcp_apt" ∷ "other" ∷ []

tools_set : (set_agent_tools installed "b2" ("mcp_apt" ∷ []) active).0 ≡ ok tt
unfolding set_agent_tools resolve_agent_id validate_agent_id is_agent_id head_char is_alnum
    all_chars is_word_char len get_metadata lookup is_mcp_name drop_prefix has_duplicates
    subset_text mem_text available
tools_set = refl

set_agent_tools-MaySet_example :
    let c' = (set_agent_tools installed "b2" ("mcp_apt" ∷ []) active).1 in
    (id : String) × (m : Metadata) × MaySet installed ("mcp_apt" ∷ []) "b2" active id m
    × (lookup id c'.allowlists ≡ some ("mcp_apt" ∷ []))
    × (c' ≡ record active { allowlists = insert id ("mcp_apt" ∷ []) active.allowlists })
set_agent_tools-MaySet_example =
    set_agent_tools-MaySet installed ("mcp_apt" ∷ []) "b2" active tools_set
