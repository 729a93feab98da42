-- ===== src/Tests/Sample.antt =====
-- Two agents: one with a submitted patch, and one that runs.
use tgent.Prelude.{
  String, true, false, ◌≡◌, refl, Option, some, none, [], ◌∷◌, head_char, is_alnum, all_chars, len,
}
use tgent.Protocol.Ids.{is_word_char}
use tgent.Json.{null, str, end, field, pos}
use tgent.Dict.{lookup}
use tgent.Store.Metadata.{Metadata, State, running, stopped}
use tgent.Store.Files.{Store, Stored, is_agent_id}
use tgent.Store.Files.Laws.{Holds}
use tgent.Controller.State.{Monitor, watching, closing, Controller, Runtime, runtime_of}

abbrev pub metadata_with : String → State → Option String → Metadata
metadata_with agent_id state head = record {
  agent_id = agent_id;
  name = "worker";
  state = state;
  stop_reason = null;
  created_at = 1;
  updated_at = 1;
  base_commit = "b0";
  original_base_commit = none;
  snapshot_root = "/snapshots/1";
  snapshot_project = "/snapshots/1/project";
  worker_pid = some 77;
  exit_code = none;
  model_calls = 2;
  max_model_calls = 5;
  max_runtime_seconds = 60;
  parent_agent_id = none;
  model = none;
  reasoning_effort = "medium";
  submitted_head = head;
  patch_applied_acknowledgement = none;
  patch_rejection = none;
}

abbrev pub stored_with : Metadata → Stored
stored_with m = record {
  metadata = m;
  history = field "role" (str "user") end ∷ [];
  version = (1, 10);
  summary = none;
}

-- A submitted patch that nobody has decided on, and a worker that runs.
abbrev pub waiting : Stored
waiting = stored_with (metadata_with "a1" stopped (some "c0ffee"))

abbrev pub busy : Stored
busy = stored_with (metadata_with "b2" running none)

abbrev pub runtime_with : Monitor → Runtime
runtime_with monitor = record {
  base_commit = "b0";
  model_calls = 2;
  stop_requested = false;
  returncode = none;
  monitor = monitor;
  serving = true;
  timer = true;
  commands = [];
}

abbrev pub two_agents : Store
two_agents = ("a1", waiting) ∷ ("b2", busy) ∷ []

abbrev pub controller_with : Runtime → Controller
controller_with r = record {
  store = two_agents;
  runtimes = ("b2", r) ∷ [];
  allowlists = [];
  restarting = [];
  snapshots = "/snapshots/1" ∷ [];
  max_model_calls = 5;
  max_runtime_seconds = 60;
}

abbrev pub active : Controller
active = controller_with (runtime_with watching)

abbrev pub over : Controller
over = controller_with (record (runtime_with closing) { returncode = some (pos 1) })

pub waiting-Holds : Holds "a1" waiting two_agents
unfolding is_agent_id lookup head_char is_alnum all_chars is_word_char len
waiting-Holds = record { valid = refl; found = refl }

pub busy-Holds : Holds "b2" busy two_agents
unfolding is_agent_id lookup head_char is_alnum all_chars is_word_char len
busy-Holds = record { valid = refl; found = refl }

pub busy-runtime : runtime_of "b2" active ≡ some (runtime_with watching)
unfolding lookup
busy-runtime = refl

pub over-runtime :
    runtime_of "b2" over ≡ some (record (runtime_with closing) { returncode = some (pos 1) })
unfolding lookup
over-runtime = refl
