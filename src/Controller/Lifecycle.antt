-- ===== src/Controller/Lifecycle.antt =====
-- The end of a worker and of its agent: `_monitor_process`, `_enforce_runtime_limit`,
-- `stop_agent`, `_reap_agent` and the recovery in `__init__`.
pub mod Stop
pub mod Reaped
pub mod Recovered
use tgent.Prelude.{
  ℕ, String, Bool, true, false, not, ◌&&◌, ◌||◌, Option, none, some, List, [], ◌∷◌, ◌==◌,
  if◌then◌else◌,
}
use tgent.Result.{Result, ok, err, Error, controller_error}
use tgent.Json.{Json, null, str, ℤ, pos}
use tgent.Dict.{Dict, lookup, insert, erase}
use tgent.Store.Metadata.{
  Metadata, Decision, State, running, halted, awaiting_review, failed, stopping, stopped, reaped,
}
use tgent.Store.Files.{Store, Stored, get_metadata, remove}
use tgent.Controller.State.{
  Controller, Runtime, Monitor, watching, closing, concluded, Action, pure, raise, gets, query,
  ◌>>=◌, ◌>>◌, modify, refuse_if, update, runtime_of, set_runtime, alive, is_live, is_terminal,
}

-- `process.returncode` as a truth value, once the process has ended
abbrev pub failed_exit : Option ℤ → Bool
failed_exit (some (pos ℕ.zero)) = false
failed_exit none = false
failed_exit _ = true

-- the state in which the monitor leaves an agent whose worker has ended
abbrev pub final_state : Runtime → State
final_state r =
    if r.stop_requested then stopped else if failed_exit r.returncode then failed else halted

-- the update of the monitor: a terminal state stays
abbrev pub mark_ended : String → Runtime → Metadata → ℕ → Action (Unit {0})
mark_ended agent_id runtime metadata now =
    if is_terminal metadata.state
    then pure tt
    else (update agent_id
          (λ m. record m { state = final_state runtime; exit_code = runtime.returncode }) now
        >> pure tt)

-- `_monitor_process` up to the end of the socket, with the stored metadata
abbrev pub note_end : String → Runtime → ℕ → Metadata → Action (Unit {0})
note_end agent_id runtime now metadata = do
  modify (set_runtime agent_id (record runtime { timer = false }))
  mark_ended agent_id runtime metadata now
  modify (set_runtime agent_id (record runtime { timer = false; monitor = closing }))

-- `_monitor_process` after `await process.wait()`, up to the end of the socket
unfoldable pub settle : String → Runtime → ℕ → Action (Unit {0})
settle agent_id runtime now = query (get_metadata agent_id) >>= note_end agent_id runtime now

-- `await runtime.ipc.stop()`, and the end of the monitor
unfoldable pub close_socket : String → Action (Unit {0})
close_socket agent_id c = elim (runtime_of agent_id c) [
  | none ↦ (ok tt, c)
  | some runtime ↦
      (ok tt, set_runtime agent_id (record runtime { serving = false; monitor = concluded }) c)
]

-- `_monitor_process` after `await process.wait()`
unfoldable pub monitor_process : String → ℕ → Action (Unit {0})
unfolding settle close_socket
monitor_process agent_id now c = elim (runtime_of agent_id c) [
  | none ↦ (ok tt, c)
  | some runtime ↦ (settle agent_id runtime now >> close_socket agent_id) c
]

-- the monitor has noted the end of the process
abbrev pub has_noted : Monitor → Bool
has_noted watching = false
has_noted closing = true
has_noted concluded = true

-- `await runtime.monitor`: what the monitor has still to do
abbrev pub await_monitor : String → Monitor → ℕ → Action (Unit {0})
await_monitor agent_id watching now = monitor_process agent_id now
await_monitor agent_id closing now = close_socket agent_id
await_monitor agent_id concluded now = pure tt

-- the process after `terminate` or `kill` and `wait`: it ends with the given status, unless it has
-- ended before
abbrev pub ended : ℤ → Runtime → Runtime
ended status r = elim r.returncode [ none ↦ record r { returncode = some status } | some _ ↦ r ]

-- `_enforce_runtime_limit`, when the time is up
abbrev limit_reached : String → Runtime → ℤ → ℕ → Action (Unit {0})
limit_reached agent_id runtime status now = do
  modify (set_runtime agent_id (record runtime { stop_requested = true }))
  update agent_id (λ m. record m { state = stopping; stop_reason = str "runtime_limit" }) now
  modify (set_runtime agent_id (ended status (record runtime { stop_requested = true })))

unfoldable pub enforce_runtime_limit : String → ℤ → ℕ → Action (Unit {0})
enforce_runtime_limit agent_id status now c = elim (runtime_of agent_id c) [
  | none ↦ (ok tt, c)
  | some runtime ↦ if alive runtime then limit_reached agent_id runtime status now c else (ok tt, c)
]

-- `stop_agent` where there is a runtime; `status` is the exit status that the process has, or gets
unfoldable pub stop_runtime : String → Runtime → ℤ → ℕ → Action Metadata
unfolding monitor_process
stop_runtime agent_id runtime status now = do
  modify (set_runtime agent_id (record runtime { stop_requested = true }))
  update agent_id (λ m. record m { state = stopping }) now
  modify (set_runtime agent_id (ended status (record runtime { stop_requested = true })))
  await_monitor agent_id runtime.monitor now
  query (get_metadata agent_id)

abbrev is_awaiting_review : State → Bool
is_awaiting_review awaiting_review = true
is_awaiting_review _ = false

-- `stop_agent` where there is no runtime
unfoldable pub stop_record : String → ℕ → Action Metadata
stop_record agent_id now = do
  metadata ← query (get_metadata agent_id)
  (if is_awaiting_review metadata.state
      then (update agent_id
            (λ m. record m { state = stopped; stop_reason = str "operator_stopped" }) now
          >> query (get_metadata agent_id))
      else pure metadata)

-- `stop_agent`, for an agent id that is resolved
unfoldable pub stop_agent : String → ℤ → ℕ → Action Metadata
unfolding stop_runtime stop_record
stop_agent agent_id status now c = elim (runtime_of agent_id c) [
  | none ↦ stop_record agent_id now c
  | some runtime ↦ stop_runtime agent_id runtime status now c
]

-- `bool(metadata.get("submitted_head"))`, with the head
abbrev pub submitted : Metadata → Option String
submitted m = elim m.submitted_head [ none ↦ none | some s ↦ if s == "" then none else some s ]

-- `decision.get("submitted_head") == head`
abbrev pub decides : Option Decision → String → Bool
decides none head = false
decides (some d) head = d.head == head

-- the submitted patch, if there is one and it has no matching decision
abbrev pub undecided_head : Metadata → Option String → Bool
undecided_head m none = false
undecided_head m (some head) =
    not (decides m.patch_rejection head || decides m.patch_applied_acknowledgement head)

abbrev pub undecided : Metadata → Bool
undecided m = undecided_head m (submitted m)

-- `state in {"stopped", "failed", "halted", "reaped"}`
abbrev pub is_reapable : State → Bool
is_reapable stopped = true
is_reapable failed = true
is_reapable halted = true
is_reapable reaped = true
is_reapable _ = false

-- `x in xs`, and the list without `x`
unfoldable pub mem_path : String → List String → Bool
mem_path x [] = false
mem_path x (y ∷ ys) = y == x || mem_path x ys

unfoldable pub without : String → List String → List String
without x [] = []
without x (y ∷ ys) = let rest = without x ys in if y == x then rest else y ∷ rest

-- `self.store.remove(agent_id)`
abbrev pub put_store : Result Store → Action (Unit {0})
put_store (ok store) c = (ok tt, record c { store = store })
put_store (err e) c = (err e, c)

unfoldable pub remove_record : String → Action (Unit {0})
remove_record agent_id c = put_store (remove agent_id c.store) c

-- The tests of `_reap_agent`; `managed` tells whether a path lies below the snapshot root.
abbrev pub reap_tests : (String → Bool) → Bool → Metadata → Result Metadata
reap_tests managed live metadata =
    if live
    then err (controller_error "Worker process is still running")
    else if not (is_reapable metadata.state)
    then err (controller_error "Stop the agent before reaping it")
    else if undecided metadata
    then err (
        controller_error
          "Agent has a submitted patch; preserve its snapshot and review artifacts, reject it, or acknowledge it as already applied")
    else if not (managed metadata.snapshot_root)
    then err (controller_error "Recorded snapshot path is outside managed snapshot root")
    else ok metadata

abbrev pub reap_tested : (String → Bool) → Bool → Result Metadata → Result Metadata
reap_tested managed live (err e) = err e
reap_tested managed live (ok metadata) = reap_tests managed live metadata

unfoldable pub reapable : (String → Bool) → String → Controller → Result Metadata
reapable managed agent_id c =
    reap_tested managed (is_live (runtime_of agent_id c)) (get_metadata agent_id c.store)

-- The rest of `_reap_agent`; `removed` is the outcome of `remove_project_snapshot`.
abbrev pub forget : String → Metadata → Controller → Controller
forget agent_id metadata c = record c {
  snapshots = without metadata.snapshot_root c.snapshots;
  runtimes = erase agent_id c.runtimes;
}

abbrev pub discard : (String → Result (Unit {0})) → String → Metadata → Action (Unit {0})
discard removed agent_id metadata =
    query (λ _. removed metadata.snapshot_root)
    >> (modify (forget agent_id metadata) >> remove_record agent_id)

-- `_reap_agent`
unfoldable pub reap_agent :
    (String → Bool) → (String → Result (Unit {0})) → String → Action (Unit {0})
unfolding remove_record
reap_agent managed removed agent_id =
    (λ c. (reapable managed agent_id c, c)) >>= discard removed agent_id

-- The loop of `__init__` over the stored agents: no worker outlives the controller.
abbrev pub is_running : State → Bool
is_running running = true
is_running _ = false

abbrev pub recovered : ℕ → Stored → Stored
recovered now s =
    if is_running s.metadata.state
    then record s {
      metadata = record s.metadata {
        state = stopped;
        stop_reason = str "controller_restarted";
        worker_pid = none;
        updated_at = now;
      };
    }
    else s

unfoldable pub recover : ℕ → Store → Store
recover now [] = []
recover now ((agent_id, s) ∷ rest) = (agent_id, recovered now s) ∷ recover now rest
