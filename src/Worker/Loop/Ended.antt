-- ===== src/Worker/Loop/Ended.antt =====
-- The loop of a worker ends: each of its rounds takes an answer of the controller.
use tgent.Prelude.{
  ℕ, zero, suc, ◌<◌, String, Bool, true, false, ◌||◌, ◌≡◌, ◌≢◌, ap, ◌∙◌, sym, Option, none, some,
  List, [], ◌∷◌, ◌++◌, length, ltb, arith, if◌then◌else◌,
}
use tgent.Result.{Result, ok}
use tgent.Json.{Json, Fields, get_value}
use tgent.Worker.Session.{
  Outside, Session, Action, pure, finish, ◌>>=◌, refuse_if, answer_of, request,
}
use tgent.Worker.Session.Later.{Later, Leads}
use tgent.Worker.Tools.{objects}
use tgent.Worker.Tools.Child.{calls_of, completion_request}
use tgent.Worker.Loop.{
  persist, draw, stop_report, wait_for_command, tool_message, is_submission, record_result,
  result_of, answer_parts, call_parts, answer_call, answer_calls, handle_tool_calls, assistant_of,
  model_of, message_of, take_turn, turn, run_turns, initialize, run,
}
use tgent.Worker.Loop.Later.{
  Later->>=, Later-refl, request-Later, refuse_if-Later, persist-Later, wait-Later,
}
use tgent.Worker.Loop.Answered.{result_of-Quiet, >>=-ran}

module _ (o : Outside) (failure : Json → Json → String) where
  record_result-Later :
      (parts : Json × Fields) (result : Json) → Leads Later (record_result o failure parts result)
  record_result-Later parts result s =
      Later->>= (persist (tool_message o failure parts.0 result (o.token s.drawn) ∷ []))
        (λ u. pure (is_submission o failure (get_value "name" parts.1) result))
        (persist-Later (tool_message o failure parts.0 result (o.token s.drawn) ∷ []))
        (λ u. Later-refl) (draw o s).1

  answer_call-Later : (call : Json) → Leads Later (answer_call o failure call)
  unfolding answer_call
  answer_call-Later call =
      Later->>= (finish (call_parts o failure call)) (answer_parts o failure) Later-refl λ parts.
        Later->>= (result_of o failure parts) (record_result o failure parts)
          (λ s. (result_of-Quiet o failure parts s).fewer) (record_result-Later parts)

  answer_calls-Later : (calls : List Json) → Leads Later (answer_calls o failure calls)
  unfolding answer_calls
  answer_calls-Later [] = Later-refl
  answer_calls-Later (call ∷ calls) =
      Later->>= (answer_call o failure call)
        (λ submitted. answer_calls o failure calls >>= λ later. pure (submitted || later))
        (answer_call-Later call)
        λ submitted.
          Later->>= (answer_calls o failure calls) (λ later. pure (submitted || later))
            (answer_calls-Later calls) (λ later. Later-refl)

  abbrev waits : Bool → Action Bool
  waits submitted = if submitted then wait_for_command o failure true else pure true

  waits-Later : (submitted : Bool) → Leads Later (waits submitted)
  waits-Later true = wait-Later o failure true
  waits-Later false = Later-refl

  handle-Later : (calls : List Json) → Leads Later (handle_tool_calls o failure calls)
  unfolding handle_tool_calls
  handle-Later calls =
      Later->>= (refuse_if (ltb 32 (length calls)) "Model returned too many tool calls in one turn")
        (λ u. answer_calls o failure calls >>= waits)
        (refuse_if-Later (ltb 32 (length calls)) "Model returned too many tool calls in one turn")
        λ u. Later->>= (answer_calls o failure calls) waits (answer_calls-Later calls) waits-Later

  abbrev spoken : List Json → Action Bool
  spoken calls = elim calls [
    | call ∷ calls ↦ handle_tool_calls o failure (call ∷ calls)
    | [] ↦ request "agent.update_state" (stop_report "halted" "no_tool_calls") >>= λ answer.
        wait_for_command o failure false
  ]

  spoken-Later : (calls : List Json) → Leads Later (spoken calls)
  spoken-Later (call ∷ calls) = handle-Later (call ∷ calls)
  spoken-Later [] =
      Later->>= (request "agent.update_state" (stop_report "halted" "no_tool_calls"))
        (λ answer. wait_for_command o failure false)
        (request-Later "agent.update_state" (stop_report "halted" "no_tool_calls"))
        (λ answer. wait-Later o failure false)

  abbrev said : Json → Fields → Action Bool
  said completion message s =
      let s' : Session = (draw o (record s { model = model_of o failure completion s.model })).1 in
      (persist (assistant_of o failure message (o.token s.drawn) s'.model ∷ []) >>= λ u.
      spoken (calls_of message))
        s'

  take_turn-Later : (completion : Json) → Leads Later (take_turn o failure completion)
  unfolding take_turn
  take_turn-Later completion =
      Later->>= (finish (message_of o failure completion)) (said completion) Later-refl λ message s.
        let s' : Session =
          (draw o (record s { model = model_of o failure completion s.model })).1 in
        Later->>= (persist (assistant_of o failure message (o.token s.drawn) s'.model ∷ []))
          (λ u. spoken (calls_of message))
          (persist-Later (assistant_of o failure message (o.token s.drawn) s'.model ∷ []))
          (λ u. spoken-Later (calls_of message)) s'

answered-fewer :
    (answers : List (Result Json)) (s : Session) {v : Json}
    → (answer_of answers s).0 ≡ ok v
    → length (answer_of answers s).1.answers < length answers
answered-fewer [] s e = cc
answered-fewer (a ∷ rest) s e = omega arith

-- A request that returns takes an answer.
request-fewer :
    (method : String) (params : Fields) (s : Session) {v : Json}
    → (request method params s).0 ≡ ok v
    → length (request method params s).1.answers < length s.answers
unfolding request
request-fewer method params s e =
    answered-fewer s.answers (record s { sent = s.sent ++ (method, params) ∷ [] }) e

module _ (o : Outside) (failure : Json → Json → String) where
  abbrev asks : Session → List Fields → Action Json
  asks s messages =
      request "model.complete" (completion_request o failure s.available_tools messages)

  -- A round that returns takes an answer.
  turn-fewer :
      (s : Session) {b : Bool}
      → (turn o failure s).0 ≡ ok b
      → length (turn o failure s).1.answers < length s.answers
  unfolding turn
  turn-fewer s {b} e =
      let (messages, valid, same) =
        >>=-ran (λ messages. asks s messages >>= take_turn o failure) b (finish (objects s.history))
          s e in
      let (completion, answered, same') =
        >>=-ran (take_turn o failure) b (asks s messages) s
          (sym (ap (λ (p : Result Bool × Session). p.0) same) ∙ e) in
      let strictly =
        request-fewer "model.complete" (completion_request o failure s.available_tools messages) s
          answered in
      let later = take_turn-Later o failure completion (asks s messages s).1 in
      let same'' = ap (λ (p : Result Bool × Session). length p.1.answers) (same ∙ same') in
      omega (arith, strictly, later, same'')

  abbrev next : ℕ → Bool → Action (Option (Unit {0}))
  next n going_on = if going_on then run_turns o failure n else pure (some tt)

  next-enough :
      (n : ℕ) (b : Bool) (s : Session)
      → ((run_turns o failure n s).0 ≢ ok none)
      → (next n b s).0 ≢ ok none
  next-enough n true s rest = rest
  next-enough n false s rest = λ e. cc

  run_turns-enough :
      (n : ℕ) (s : Session) → length s.answers < n → (run_turns o failure n s).0 ≢ ok none
  unfolding run_turns
  run_turns-enough zero s h e = ground (arith, h)
  run_turns-enough (suc n) s h e =
      let (going_on, ran, same) = >>=-ran (next n) none (turn o failure) s e in
      let fewer = turn-fewer s ran in
      next-enough n going_on (turn o failure s).1
        (run_turns-enough n (turn o failure s).1 (omega (arith, fewer, h)))
        (sym (ap (λ (p : Result (Option (Unit {0})) × Session). p.0) same) ∙ e)

  -- Whatever the controller answers, and however many answers there are: the worker's loop ends, by a
  -- shutdown or an exception, and as many rounds as there are answers, and one more, are enough.
  run-ends : (s : Session) → (run o failure s).0 ≢ ok none
  unfolding run
  run-ends s e =
      let (u, ran, same) = >>=-ran rounds none (initialize o failure) s e in
      let s1 : Session = (initialize o failure s).1 in
      run_turns-enough (suc (length s1.answers)) s1 (omega arith)
        (sym (ap (λ (p : Result (Option (Unit {0})) × Session). p.0) same) ∙ e)
    where
      rounds : Unit {0} → Action (Option (Unit {0}))
      rounds u s = run_turns o failure (suc (length s.answers)) s
