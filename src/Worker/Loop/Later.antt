-- ===== src/Worker/Loop/Later.antt =====
-- What a worker does between two answers of the model brings no answer of the controller back.
use tgent.Prelude.{
  ◌≤◌, String, Bool, true, false, not, List, [], ◌∷◌, ◌++◌, length, arith, if◌then◌else◌,
}
use tgent.Result.{Result, ok, err}
use tgent.Json.{Json, arr, Fields, end, field, of_list}
use tgent.Worker.Catalog.{tools}
use tgent.Worker.Session.{
  Outside, Discovered, Session, Action, pure, finish, modify, ◌>>=◌, ◌>>◌, refuse_if, request,
}
use tgent.Worker.Session.Later.{
  Later, Leads, Leads->>=, Later-trans, Quiet-refuse_if, request-Quiet,
}
use tgent.Worker.Loop.{
  persist, confirms, Heard, ignored, shut_down, resumed, heard, allowed_of, history_list,
  or_worker_error, state_report, stop_report, discover_mcp_tools, resume, await_command,
  wait_for_command, asked,
}

pub Later->>= {ℓ κ} :
    {A : Type ℓ} {B : Type κ} (m : Action A) (f : A → Action B)
    → Leads Later m
    → ((a : A) → Leads Later (f a))
    → Leads Later (m >>= f)
Later->>= = Leads->>= Later Later-trans

pub Later-refl : (s : Session) → Later s s
Later-refl s = omega arith

pub request-Later : (method : String) (params : Fields) → Leads Later (request method params)
request-Later method params s = (request-Quiet method params s).fewer

pub refuse_if-Later : (b : Bool) (text : String) → Leads Later (refuse_if b text)
refuse_if-Later b text s = (Quiet-refuse_if b text s).fewer

pub persist-Later : (messages : List Json) → Leads Later (persist messages)
unfolding persist
persist-Later messages =
    Later->>= (request "history.append" (field "messages" (arr (of_list messages)) end)) confirmed
      (request-Later "history.append" (field "messages" (arr (of_list messages)) end))
      λ result.
        Later->>=
          (refuse_if (not (confirms (length messages) result))
            "Controller did not confirm transcript persistence")
          (λ u. grown)
          (refuse_if-Later (not (confirms (length messages) result))
            "Controller did not confirm transcript persistence")
          (λ u s. Later-refl s)
  where
    grown : Action (Unit {0})
    grown = modify λ s. record s { history = s.history ++ messages }

    confirmed : Json → Action (Unit {0})
    confirmed result =
        refuse_if (not (confirms (length messages) result))
          "Controller did not confirm transcript persistence"
        >> grown

module _ (o : Outside) (failure : Json → Json → String) where
  abbrev reported : Discovered → Action (Unit {0})
  reported found =
      request "agent.tools.report" (field "modules" found.catalog end) >>= λ answer. pure tt

  abbrev registered : Discovered → Action (Unit {0})
  registered found =
      modify (λ s. record s {
        dynamic_tools = found.dynamic_tools;
        available_tools = tools ++ found.added_tools;
      })
      >> reported found

  abbrev permitted : List String → Action (Unit {0})
  permitted allowed =
      modify (λ s. record s { dynamic_tools = []; available_tools = tools })
      >> (finish (o.discover allowed) >>= registered)

  reported-Later : (found : Discovered) → Leads Later (reported found)
  reported-Later found =
      Later->>= (request "agent.tools.report" (field "modules" found.catalog end))
        (λ answer. pure tt) (request-Later "agent.tools.report" (field "modules" found.catalog end))
        (λ answer s. Later-refl s)

  pub discover-Later : Leads Later (discover_mcp_tools o failure)
  unfolding discover_mcp_tools
  discover-Later =
      Later->>= (request "agent.tools.get" end)
        (λ response. finish (allowed_of response) >>= permitted)
        (request-Later "agent.tools.get" end)
        λ response. Later->>= (finish (allowed_of response)) permitted Later-refl λ allowed s.
          Later->>= (finish (o.discover allowed)) registered Later-refl
            (λ found s. reported-Later found (record s {
              dynamic_tools = found.dynamic_tools;
              available_tools = tools ++ found.added_tools;
            }))
            (record s { dynamic_tools = []; available_tools = tools })

  abbrev replaced : List Json → Action Bool
  replaced updated =
      modify (λ s. record s { history = updated })
      >> (request "agent.update_state" (state_report "running") >>= λ answer. pure true)

  abbrev refreshed : Json → Action Bool
  refreshed fresh =
      finish (or_worker_error "Controller returned invalid resumed history" (history_list fresh))
      >>= replaced

  resume-Later : Leads Later (resume o failure)
  unfolding resume
  resume-Later =
      Later->>= (discover_mcp_tools o failure) (λ u. request "history.get" end >>= refreshed)
        discover-Later
        λ u.
          Later->>= (request "history.get" end) refreshed (request-Later "history.get" end) λ fresh.
            Later->>=
              (finish (
                or_worker_error "Controller returned invalid resumed history" (history_list fresh)))
              replaced Later-refl
              λ updated s.
                Later->>= (request "agent.update_state" (state_report "running"))
                  (λ answer. pure true)
                  (request-Later "agent.update_state" (state_report "running"))
                  (λ answer s. Later-refl s) (record s { history = updated })

  heard-Later :
      (h : Heard) (s' : Session) (again : Result Bool × Session)
      → Later s' again.1
      → Later s'
          (elim h as (λ _. Result Bool × Session) [
            | ignored ↦ again
            | shut_down ↦ (ok false, s')
            | resumed ↦ resume o failure s'
          ]).1
  heard-Later ignored s' again l = l
  heard-Later shut_down s' again l = Later-refl s'
  heard-Later resumed s' again l = resume-Later s'

  await-Later :
      (answers : List (Result Json)) (s : Session)
      → length answers ≤ length s.answers
      → Later s (await_command o failure answers s).1
  unfolding await_command
  await-Later [] s h = Later-refl s
  await-Later (err e ∷ answers) s h = omega (arith, h)
  await-Later (ok command ∷ answers) s h =
      let s' : Session = record (asked o failure s) { answers = answers } in
      let l =
        heard-Later (heard command) s' (await_command o failure answers s')
          (await-Later answers s' (omega arith)) in
      omega (arith, l, h)

  pub wait-Later :
      (awaiting_review : Bool) → Leads Later (wait_for_command o failure awaiting_review)
  unfolding wait_for_command
  wait-Later awaiting_review =
      Later->>= (request "agent.update_state" report)
        (λ answer s. await_command o failure s.answers s)
        (request-Later "agent.update_state" report)
        (λ answer s. await-Later s.answers s (omega arith))
    where
      report : Fields
      report =
          if awaiting_review
          then stop_report "awaiting_review" "awaiting_review"
          else stop_report "halted" "awaiting_command"
