-- ===== src/Lib.antt =====
-- A verification library for tgit-agent: agents that work on snapshots of a Git project in
-- sandboxes, a controller that manages them, and an operator who talks to it over one SSH
-- command.
--
-- The operator's client (`RemoteAgentClient` in remote_agent_protocol.py) sends one JSON request;
-- the server validates it (`validate_request`), calls the handler of its operation
-- (`dispatch_request`) and answers, and the client checks the answer. The handlers call the
-- methods of `AgentController` (agent_controller.py), which keeps the records of its agents in an
-- `AgentStore` (agent_store.py) and one `_AgentRuntime` for each worker process. A worker calls
-- the handlers `_hello`, `_model_complete`, `_update_state` and so on over its control socket. An
-- operator who takes only some lines of a change uses `build_selected_patch`
-- (git_patch_selection.py).
--
-- The client transfers a project as an upload that the server takes in (`RemoteUploadManager` in
-- remote_agent_upload.py, with the directories of remote_agent_config.py). The controller starts
-- the worker (agent_worker.py) with the command line of `build_sandbox_command`
-- (agent_sandbox.py), which mounts the home paths that the project asks for in its configuration
-- (agent_project.py) and the controller's policy allows.
--
-- Which file models which part:
-- - Prelude, Result, Json, Dict: shared helpers, exceptions as values, JSON values with integers
--   and with floats as their 64 bits, and Python dictionaries in insertion order.
-- - Protocol: remote_agent_protocol.py. Protocol/Ids has the checks of single values,
--   Protocol/Request `validate_request`, Protocol/Dispatch the server's side and Protocol/Client
--   the client's. The length of the JSON text of a value (`json_size`), the text of a value in a
--   message (`show`) and the remote end (`Endpoint`) are parameters.
-- - Patch: git_patch_selection.py. Patch/Lines reads hunks, Patch/Select chooses the lines and
--   cuts them into segments, Patch/Build prints. The lines of the diff are the input; its digits
--   are ASCII digits. The loop over the lines runs on fuel, one round more than there are lines,
--   which is enough since a round takes a line. Patch/Lines/Placed describes where an entry stands
--   in the diff without the counters of the loop.
-- - Store: agent_store.py. Store/Metadata has the metadata, one field for each key that the
--   controller reads again, Store/Files the operations. The store is a dictionary from agent
--   identifiers to metadata, history, the version of the history file (its time and its size) and
--   the cached summary. `create` works on the directories of the agents and on those with a part
--   of an agent's files; the outcomes of making the directory and of the two writes are
--   parameters, and the other operations are modelled where their writes succeed. Files that are
--   damaged or replaced by links are not modelled.
-- - Controller: agent_controller.py. Controller/State has the state and the actions on it: a
--   method takes the state to its result and the new state, and what was written before an
--   exception stays written. Controller/Worker has the handlers that a worker calls,
--   Controller/Lifecycle the monitor, `stop_agent`, `_reap_agent` and the recovery at start,
--   Controller/Review the operator's decisions, Controller/Bulk the bulk operations and
--   Controller/Tools `set_agent_tools`. The answers of Git, of the model, of the submission
--   callback and of `remove_project_snapshot`, the names of the installed entry points, the exit
--   status of a process and the time are parameters. Methods run one at a time between their
--   `await`s. Metadata keys that are written and never read again (the time and the size of the
--   last model request) are left out. The monitor of a worker has noted its end, or not yet, while
--   it waits for the control socket to close (`Monitor`).
-- - Ipc: agent_ipc.py. Ipc/Messages has the lines and the checks of a request, Ipc/Serve the loop
--   of `_serve_peer` over the lines that are read and Ipc/Client `AgentWorkerClient.request`. The
--   JSON codec (`Codec`), the handlers and what `int` and `str` make of a JSON value are
--   parameters. A failure of the transport while a line is written is left out.
-- - Paths: `pathlib`'s pure paths, and `Host`, the file system as functions (`resolve`, `exists`,
--   `is_file` and so on), a parameter.
-- - Sandbox: agent_sandbox.py. Sandbox/Layout has `build_runtime_layout`, Sandbox/Manifest
--   `RuntimeManifest`, Sandbox/Requests the home paths that are asked for and allowed,
--   Sandbox/Mounts the checks of the mounts, Sandbox/Arguments the options of Bubblewrap as data
--   and Sandbox/Command `build_sandbox_command`. Sandbox/Command/Reader reads a command line back
--   and describes it independently of how it is built. The order of a set of paths is that of
--   their first mention; the code sorts the mounts before it writes them.
-- - Config: Config/Project has `load_project_config` of agent_project.py, Config/Remote
--   remote_agent_config.py. What the TOML and JSON readers make of a file, and `casefold`, are
--   parameters.
-- - Upload: remote_agent_upload.py. Upload/Manager has the three directories as dictionaries of
--   entries and the operations, Upload/Manager/Reached the steps of the operations and of the
--   clients' transfers. Operations run one at a time, as the locks make them; what Git, the hash
--   and the start of an agent answer, and the time, are parameters.
-- - Worker: agent_worker.py. Worker/Files resolves and reads files, Worker/Search searches them,
--   Worker/Edit edits them, Worker/Command runs a command, Worker/Streams reads its output and
--   Worker/Context builds the bounded view of the history that a model is shown; Worker/Text has
--   what they use of Python's strings, and Worker/Catalog the table of tools. Worker/Session has
--   the state of a worker: the controller's answers to its requests are a list, behind whose end
--   the connection is closed. Worker/Tools executes tools, Worker/Tools/Child the task of a
--   child, with 12 calls of the model, and Worker/Loop has `initialize`, `_wait_for_command`,
--   `_handle_tool_calls` and `run`. The wait goes through the answers, as many timeouts as they
--   are; `run` has one round more than there are answers, which is enough since a round takes
--   one. The files below the root,
--   the links, the outcome of a process, the JSON codec, the lengths of encoded texts and what
--   the discovery finds among the installed MCP servers are parameters.
-- - Tests: the theorems at concrete inputs.
--
-- Not modelled: starting and continuing agents and their tool catalogs; the control socket as a
-- file, snapshots, the writing of a runtime manifest, `discover_project_root`, which asks Git,
-- the installed MCP servers that a worker loads, the service, its daemon and its adapter; the
-- locks of files; the MCP servers, the interactive workflow and the scripts, which call Git,
-- package managers, terminals and network services.
pub mod Prelude
pub mod Result
pub mod Json
pub mod Protocol
pub mod Patch
pub mod Dict
pub mod Store
pub mod Controller
pub mod Ipc
pub mod Tests
pub mod Worker
pub mod Paths
pub mod Sandbox
pub mod Config
pub mod Upload
