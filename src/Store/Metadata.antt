-- ===== src/Store/Metadata.antt =====
-- The metadata of an agent, as agent_controller.py writes it: one field for each key that the
-- controller reads again. A key that `get` may miss is an `Option`. Times are clock readings.
use tgent.Prelude.{ℕ, String, Option}
use tgent.Json.{Json, ℤ}

-- `_ALLOWED_STATES`
pub data State : Type 0 where
  starting running halted awaiting_review review_received failed stopping stopped reaped : State

-- A recorded operator decision on a submitted patch: an acknowledgement or a rejection.
pub record Decision : Type 0 where
  pub head : String
  pub decided_at : ℕ
  pub reason : Option String

pub record Metadata : Type 0 where
  pub agent_id : String
  pub name : String
  pub state : State
  pub stop_reason : Json
  pub created_at : ℕ
  pub updated_at : ℕ
  pub base_commit : String
  pub original_base_commit : Option String
  pub snapshot_root : String
  pub snapshot_project : String
  pub worker_pid : Option ℕ
  pub exit_code : Option ℤ
  pub model_calls : ℕ
  pub max_model_calls : ℕ
  pub max_runtime_seconds : ℕ
  pub parent_agent_id : Option String
  pub model : Option String
  pub reasoning_effort : String
  pub submitted_head : Option String
  pub patch_applied_acknowledgement : Option Decision
  pub patch_rejection : Option Decision
