-- ===== src/Controller/Worker/Reports.antt =====
-- The states that a worker reports.
use tgent.Prelude.{
  ℕ, String, true, false, ◌≡◌, refl, Option, some, none, arith, Bool-cases, inl, inr, ◌⊎◌, ap,
}
use tgent.Result.{Result, ok, err, IsErr}
use tgent.Json.{Json, str, Fields, get_value}
use tgent.Store.Metadata.{Metadata, State}
use tgent.Store.Files.{Stored, get_metadata}
use tgent.Store.Files.Laws.{Holds, get_metadata-Holds, insert-Holds}
use tgent.Controller.State.{Controller, pure, ◌>>=◌, query, update, is_terminal, is_reportable}
use tgent.Controller.State.Laws.{update-Holds, >>=-returns}
use tgent.Controller.Worker.{reported_state, update_state, or_invalid, report, store_state}

reported_state-IsReportable :
    (v : Json) (new_state : State)
    → reported_state v ≡ some new_state
    → is_reportable new_state ≡ true
unfolding reported_state
reported_state-IsReportable (str t) new_state e = ground arith
reported_state-IsReportable _ new_state e = cc

module _ (agent_id : String) (s : Stored) (c : Controller) (h : Holds agent_id s c.store)
    (now : ℕ) where
  -- The state was not terminal, and the agent has the new state, which a worker may report.
  pub record Reported (new_state : State) (c' : Controller) : Type 0 where
    pub open_before : is_terminal s.metadata.state ≡ false
    pub may_report : is_reportable new_state ≡ true
    pub recorded : (m : Metadata) × (get_metadata agent_id c'.store ≡ ok m) × (m.state ≡ new_state)

  abbrev Outcome : Result State × Controller → Type 0
  Outcome (ok new_state, c') = Reported new_state c'
  Outcome (err e, c') = c' ≡ c

  module _ (stop_reason : Json) (new_state : State) (may : is_reportable new_state ≡ true) where
    set_state : Metadata → Metadata
    set_state m = record m { state = new_state; stop_reason = stop_reason }

    store_state-Outcome : Outcome (store_state agent_id stop_reason now new_state s.metadata c)
    unfolding set_state
    store_state-Outcome = elim (Bool-cases (is_terminal s.metadata.state)) [
      | inl terminal ↦ rw terminal refl
      | inr live ↦
          rw
            (
              live,
              >>=-returns (update agent_id set_state now) (λ updated. pure updated.state) c _ _
                  (update-Holds agent_id s c h set_state now),
            )
            (record {
              open_before = live;
              may_report = may;
              recorded =
                  (_, get_metadata-Holds agent_id _ _ (insert-Holds agent_id s c.store h _), refl);
            })
    ]

    report-Outcome : Outcome (report agent_id stop_reason now new_state c)
    report-Outcome =
        rw
          (>>=-returns (query (get_metadata agent_id))
            (store_state agent_id stop_reason now new_state) c c s.metadata
            (ap (λ (p : Result Metadata). (p, c)) (get_metadata-Holds agent_id s c.store h)))
          store_state-Outcome

  reported-Outcome :
      (reported : Option State) (stop_reason : Json)
      → ((new_state : State) → reported ≡ some new_state → is_reportable new_state ≡ true)
      → Outcome ((or_invalid reported >>= report agent_id stop_reason now) c)
  reported-Outcome none stop_reason may = refl
  reported-Outcome (some new_state) stop_reason may =
      report-Outcome stop_reason new_state (may new_state refl)

  Outcome-cases :
      (result : Result State) (c' : Controller)
      → Outcome (result, c')
      → (IsErr result × (c' ≡ c))
        ⊎ ((new_state : State) × (result ≡ ok new_state) × Reported new_state c')
  Outcome-cases (ok new_state) c' o = inr (new_state, refl, o)
  Outcome-cases (err e) c' o = inl (tt, o)

  -- A report of a worker whose agent has a record either is refused and changes nothing, or it sets the state of an agent that
  -- was not in a terminal state to one that a worker may report.
  pub update_state-Reported :
      (params : Fields)
      → let (result, c') = update_state agent_id params now c in
        (IsErr result × (c' ≡ c))
        ⊎ ((new_state : State) × (result ≡ ok new_state) × Reported new_state c')
  unfolding update_state
  update_state-Reported params =
      Outcome-cases (update_state agent_id params now c).0 (update_state agent_id params now c).1 (
        reported-Outcome (reported_state (get_value "state" params))
          (get_value "stop_reason" params) (reported_state-IsReportable (get_value "state" params)))
