-- ===== src/Controller/Bulk.antt =====
-- The operator's bulk operations: `reap_agents` and `stop_agents`.
pub mod Kept
use Prim.Native.Char.{code}
use Prim.Native.Nat.{compare, Ordering}
use Prim.Native.String
use Prim.Native.String.{◌++◌ as text_append}
use tgent.Prelude.{
  ℕ, ◌+◌, String, Bool, true, false, not, ◌&&◌, ◌||◌, Option, none, some, List, [], ◌∷◌, ◌++◌, ltb,
  leb, len, all_chars, is_hex, drop_prefix, ◌==◌, if◌then◌else◌,
}
use tgent.Result.{Result, ok, err, Error, message, controller_error, store_error, os_error}
use tgent.Json.{Json, null, str, ℤ, eq_text}
use tgent.Dict.{Dict, lookup, dict_keys}
use tgent.Store.Metadata.{
  Metadata, Decision, State, running, halted, awaiting_review, failed, stopping, stopped, reaped,
}
use tgent.Store.Files.{Store, Stored, get_metadata, validate_agent_id}
use tgent.Protocol.Ids.{mem_text}
use tgent.Controller.State.{
  Controller, Runtime, Action, pure, raise, gets, query, ◌>>=◌, ◌>>◌, modify, refuse_if, update,
  runtime_of, is_live,
}
use tgent.Controller.Lifecycle.{submitted, decides, undecided, stop_agent, reap_agent}
use tgent.Controller.Review.{resolve_all}

abbrev pub is_empty : List String → Bool
is_empty [] = true
is_empty (x ∷ xs) = false

-- The result of one agent in a bulk operation: done, left out for a reason, or failed.
pub data Outcome : Type 0 where
  done : Outcome
  excluded : String → Outcome
  error : String → Outcome

abbrev pub is_awaiting : State → Bool
is_awaiting awaiting_review = true
is_awaiting _ = false

-- `state in {"stopped", "failed"}`
abbrev pub is_dead : State → Bool
is_dead stopped = true
is_dead failed = true
is_dead _ = false

-- `except (AgentStoreError, AgentControllerError, OSError)`
abbrev caught : Error → Bool
caught (store_error s) = true
caught (controller_error s) = true
caught (os_error s) = true
caught _ = false

abbrev reap_outcome : Result (Unit {0}) → Result Outcome
reap_outcome (ok _) = ok done
reap_outcome (err e) = if caught e then ok (excluded (message e)) else err e

module _ (managed : String → Bool) (removed : String → Result (Unit {0})) where
  -- the `else` of `reap_agents`, under its `except`
  abbrev pub reap_now : String → Action Outcome
  reap_now agent_id c = let (r, c') = reap_agent managed removed agent_id c in (reap_outcome r, c')

  abbrev pub reap_listed : String → Metadata → Action Outcome
  reap_listed agent_id metadata =
      if undecided metadata || is_awaiting metadata.state
      then pure (excluded "submitted_patch_requires_operator_review")
      else if not (is_dead metadata.state)
      then pure (excluded "state_not_stopped_or_failed")
      else reap_now agent_id

  abbrev pub reap_found : String → Result Metadata → Action Outcome
  reap_found agent_id (err e) = pure (excluded (message e))
  reap_found agent_id (ok metadata) = reap_listed agent_id metadata

  -- one agent of `reap_agents` that has not been seen before
  unfoldable pub reap_one : String → Action Outcome
  reap_one agent_id c = reap_found agent_id (get_metadata agent_id c.store) c

  abbrev pub reap_unseen : List String → String → Action Outcome
  reap_unseen seen agent_id =
      if mem_text agent_id seen then pure (excluded "duplicate_id") else reap_one agent_id

  -- the loop of `reap_agents`, with the ids seen so far
  unfoldable pub reap_each : List String → List String → Action (List (String × Outcome))
  reap_each seen [] = pure []
  reap_each seen (agent_id ∷ rest) = reap_unseen seen agent_id >>= (λ outcome.
      reap_each (agent_id ∷ seen) rest >>= (λ outcomes. pure ((agent_id, outcome) ∷ outcomes)))

  unfoldable pub reap_ids : List String → Action (List (String × Outcome))
  unfolding reap_each
  reap_ids ids =
      refuse_if (is_empty ids) "agent_ids must be a non-empty list of agent IDs" >> reap_each [] ids

  -- `reap_agents`
  unfoldable pub reap_agents : List String → Action (List (String × Outcome))
  unfolding reap_ids
  reap_agents agent_ids = query (resolve_all agent_ids) >>= reap_ids

abbrev stop_outcome : Result Metadata → Outcome
stop_outcome (ok m) = done
stop_outcome (err e) = error (message e)

abbrev stop_now : ℤ → ℕ → String → Action Outcome
stop_now status now agent_id c =
    let (r, c') = stop_agent agent_id status now c in (ok (stop_outcome r), c')

-- the choice of `stop_agents` for an agent without a submitted patch
abbrev stop_unsubmitted : ℤ → ℕ → String → Metadata → Option Runtime → Action Outcome
stop_unsubmitted status now agent_id metadata none =
    if is_awaiting metadata.state
    then stop_now status now agent_id
    else pure (excluded "no_active_worker")
stop_unsubmitted status now agent_id metadata (some r) = stop_now status now agent_id

-- one agent of `stop_agents`
unfoldable pub stop_one : ℤ → ℕ → String → Action Outcome
stop_one status now agent_id c = elim (get_metadata agent_id c.store) [
  | err e ↦ (ok (error (message e)), c)
  | ok metadata ↦ elim (submitted metadata) [
    | some head ↦ (ok (excluded "submitted_patch_requires_operator_review"), c)
    | none ↦ stop_unsubmitted status now agent_id metadata (runtime_of agent_id c) c
  ]
]

-- the loop of `stop_agents` over distinct ids
unfoldable pub stop_each : ℤ → ℕ → List String → Action (List (String × Outcome))
stop_each status now [] = pure []
stop_each status now (agent_id ∷ rest) = do
  outcome ← stop_one status now agent_id
  outcomes ← stop_each status now rest
  pure ((agent_id, outcome) ∷ outcomes)
