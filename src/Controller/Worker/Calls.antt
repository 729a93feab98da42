-- ===== src/Controller/Worker/Calls.antt =====
-- The budget of model calls.
use tgent.Prelude.{
  ℕ, ◌+◌, ◌≤◌, String, true, false, leb, ◌≡◌, refl, Bool-cases, ◌⊎◌, inl, inr, some, arith, eq_refl,
  ap, ◌∙◌,
}
use tgent.Result.{Result, ok, err, controller_error, IsErr}
use tgent.Json.{Json, Fields}
use tgent.Dict.{lookup-insert}
use tgent.Store.Metadata.{Metadata}
use tgent.Store.Files.{Stored, get_metadata}
use tgent.Store.Files.Laws.{Holds, get_metadata-Holds, insert-Holds}
use tgent.Controller.State.{
  Controller, Runtime, ◌>>=◌, ◌>>◌, gets, query, pure, runtime_of, set_runtime, update,
}
use tgent.Controller.State.Laws.{
  updated_metadata, updated_controller, update-Holds, >>=-returns, >>=-raises, >>-returns,
}
use tgent.Controller.Worker.{
  model_complete, charge_model_call, charge, finish, complete_with, call_model, run_model,
  or_unavailable, check_model_request,
}

module _ (agent_id : String) (s : Stored) (c : Controller) (h : Holds agent_id s c.store)
    (r : Runtime) (running_here : runtime_of agent_id c ≡ some r) (json_size : Json → ℕ)
    (now : ℕ) where
  -- Exactly one call is charged, to the runtime and to the record of the agent, and the number of
  -- calls is within the limit of the agent.
  pub record Charged (c' : Controller) : Type 0 where
    pub within : r.model_calls + 1 ≤ s.metadata.max_model_calls
    pub counted : runtime_of agent_id c' ≡ some (record r { model_calls = r.model_calls + 1 })
    pub recorded :
        get_metadata agent_id c'.store
        ≡ ok (record s.metadata { model_calls = r.model_calls + 1; updated_at = now })

  abbrev Outcome : Result Fields × Controller → Type 0
  Outcome (result, c') = (IsErr result × (c' ≡ c)) ⊎ Charged c'

  spent : Controller
  spent = set_runtime agent_id (record r { model_calls = r.model_calls + 1 }) c

  count : Metadata → Metadata
  count m = record m { model_calls = r.model_calls + 1 }

  spent-Charged :
      leb s.metadata.max_model_calls r.model_calls ≡ false
      → Charged (updated_controller agent_id s count now spent)
  unfolding spent count
  spent-Charged d = record {
    within = ground arith;
    counted = rw lookup-insert (rw eq_refl);
    recorded = get_metadata-Holds agent_id _ _ (insert-Holds agent_id s c.store h _);
  }

  charged :
      leb s.metadata.max_model_calls r.model_calls ≡ false
      → charge_model_call json_size agent_id r now c
        ≡ (ok s.metadata, updated_controller agent_id s count now spent)
  unfolding spent count charge_model_call
  charged d =
      >>=-returns (query (get_metadata agent_id)) (charge json_size agent_id r now) c c s.metadata
        (ap (λ (p : Result Metadata). (p, c)) (get_metadata-Holds agent_id s c.store h))
      ∙ rw d (
          >>-returns (update agent_id count now) (pure s.metadata) spent
            (updated_controller agent_id s count now spent) (updated_metadata s count now)
            (update-Holds agent_id s spent h count now))

  refused :
      leb s.metadata.max_model_calls r.model_calls ≡ true
      → charge_model_call json_size agent_id r now c
        ≡ (err (controller_error "Agent model-call budget exhausted"), c)
  unfolding charge_model_call
  refused d =
      >>=-returns (query (get_metadata agent_id)) (charge json_size agent_id r now) c c s.metadata
        (ap (λ (p : Result Metadata). (p, c)) (get_metadata-Holds agent_id s c.store h))
      ∙ rw d refl

  -- whatever the model answers
  finish-Charged :
      (answer : Result Json) (f : Json → Result Fields) (c' : Controller)
      → Charged c'
      → Outcome ((finish answer >>= λ v. finish (f v)) c')
  finish-Charged (ok v) f c' charge = inr charge
  finish-Charged (err e) f c' charge = inr charge

  call_model-Charged :
      (callback : Fields → Result Json) (params : Fields)
      → Outcome (call_model json_size callback agent_id params now r c)
  call_model-Charged callback params =
      elim (Bool-cases (leb s.metadata.max_model_calls r.model_calls)) [
        | inl over ↦
            rw
              (>>=-raises (charge_model_call json_size agent_id r now)
                (complete_with json_size callback params) c c _ (refused over))
              (inl (tt, refl))
        | inr d ↦
            rw
              (>>=-returns (charge_model_call json_size agent_id r now)
                (complete_with json_size callback params) c _ _ (charged d))
              (finish-Charged _ _ _ (spent-Charged d))
      ]

  run_model-Charged :
      (callback : Fields → Result Json) (params : Fields)
      → Outcome (run_model json_size callback agent_id params now c)
  run_model-Charged callback params =
      rw
        (>>=-returns (gets (runtime_of agent_id) >>= or_unavailable)
          (call_model json_size callback agent_id params now) c c r
          (ap (λ o. or_unavailable o c) running_here))
        (call_model-Charged callback params)

  checked-Charged :
      (check : Result (Unit {0})) (callback : Fields → Result Json) (params : Fields)
      → Outcome ((finish check >> run_model json_size callback agent_id params now) c)
  checked-Charged (ok _) callback params = run_model-Charged callback params
  checked-Charged (err e) callback params = inl (tt, refl)

  -- A model call of an agent that has a record and a runtime either is refused and changes nothing,
  -- or charges exactly one call, which is within the limit of the agent, whatever the model answers.
  pub model_complete-Charged :
      (callback : Fields → Result Json) (params : Fields)
      → let (result, c') = model_complete json_size callback agent_id params now c in
        (IsErr result × (c' ≡ c)) ⊎ Charged c'
  unfolding model_complete
  model_complete-Charged callback params =
      checked-Charged (check_model_request json_size params) callback params
