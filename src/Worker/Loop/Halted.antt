-- ===== src/Worker/Loop/Halted.antt =====
-- A worker that is told to shut down ends its loop.
use mathlib.Core.Path.{subst}
use tgent.Prelude.{
  if◌then◌else◌, ℕ, suc, String, Bool, true, false, ◌≡◌, refl, ap, sym, Option, some, List, [], ◌∷◌,
  ◌++◌, map, length, All,
}
use tgent.Result.{Result, ok, err}
use tgent.Json.{Json, str, obj, arr, Fields, field, end, get_value, of_list}
use tgent.Worker.Session.{Outside, Session, Action, pure, ◌>>=◌, request}
use tgent.Worker.Tools.{objects}
use tgent.Worker.Tools.Child.{calls_of, completion_request}
use tgent.Worker.Loop.{
  persist, confirms, await_command, wait_for_command, assistant_of, model_of, message_of, take_turn,
  turn, run_turns, handle_tool_calls, stop_report,
}

-- An answer to `agent.await_command` with this command.
abbrev pub IsCommand : String → Json → Type 0
IsCommand name answer = (fs : Fields) × (answer ≡ obj fs) × (get_value "command" fs ≡ str name)

-- The answers to a wait: timeouts, as many as there are, and then the shutdown.
abbrev pub until_shutdown : List Json → Json → List (Result Json) → List (Result Json)
until_shutdown timeouts command rest = map ok timeouts ++ ok command ∷ rest

module _ (o : Outside) (failure : Json → Json → String) (command : Json)
    (is_shutdown : IsCommand "shutdown" command) (rest : List (Result Json)) where
  -- The wait is over: there is nothing more to do, and nothing but the answers has changed.
  record IsOver (s : Session) (p : Result Bool × Session) : Type 0 where
    told : p.0 ≡ ok false
    left : p.1.answers ≡ rest
    kept : p.1.history ≡ s.history

  await_command-IsOver :
      (timeouts : List Json) (s : Session)
      → All (IsCommand "timeout") timeouts
      → IsOver s (await_command o failure (until_shutdown timeouts command rest) s)
  unfolding await_command
  await_command-IsOver [] s are =
      let (fs, is_object, named) = is_shutdown in
      rw (is_object, named, await_command) (record { told = refl; left = refl; kept = refl })
  await_command-IsOver (t ∷ ts) s ((fs, is_object, named), are) =
      rw (is_object, named, await_command)
        (let i = await_command-IsOver ts _ are in
          record { told = i.told; left = i.left; kept = i.kept })

-- A step that returns hands its value and its session on.
>>=-returns {ℓ κ} :
    {A : Type ℓ} {B : Type κ} (m : Action A) (f : A → Action B) (s s' : Session) (a : A)
    → m s ≡ (ok a, s')
    → (m >>= f) s ≡ f a s'
>>=-returns m f s s' a e =
    ap (λ (p : Result _ × Session). elim p.0 [ ok a ↦ f a p.1 | err e ↦ (err e, p.1) ]) e

-- The session behind messages that the controller has confirmed.
abbrev kept_session : List Json → Json → List (Result Json) → Session → Session
kept_session messages confirmation rest s = record s {
  answers = rest;
  sent = s.sent ++ ("history.append", field "messages" (arr (of_list messages)) end) ∷ [];
  history = s.history ++ messages;
}

persist-confirmed :
    (messages : List Json) (confirmation : Json) (rest : List (Result Json)) (s : Session)
    → confirms (length messages) confirmation ≡ true
    → persist messages (record s { answers = ok confirmation ∷ rest })
      ≡ (ok tt, kept_session messages confirmation rest s)
unfolding persist request
persist-confirmed messages confirmation rest s h = rw h refl

module _ (o : Outside) (failure : Json → Json → String) (s : Session) (messages : List Fields)
    (valid : objects s.history ≡ ok messages) (completion : Json) (message : Fields)
    (is_message : message_of o failure completion ≡ ok message) (no_calls : calls_of message ≡ [])
    (confirmation : Json) (is_confirmed : confirms 1 confirmation ≡ true) (noted waits : Json)
    (timeouts : List Json) (are_timeouts : All (IsCommand "timeout") timeouts) (command : Json)
    (is_shutdown : IsCommand "shutdown" command) (rest : List (Result Json)) where
  -- The session with the answers of the controller: the completion, three confirmations, and the
  -- answers to the wait.
  abbrev pub answered : Session
  answered = record s {
    answers =
        ok completion
        ∷ ok confirmation
        ∷ ok noted
        ∷ ok waits
        ∷ until_shutdown timeouts command rest;
  }

  -- What the assistant has said.
  abbrev pub said : Json
  said = assistant_of o failure message (o.token s.drawn) (model_of o failure completion s.model)

  record IsHalted (p : Result Bool × Session) : Type 0 where
    told : p.0 ≡ ok false
    left : p.1.answers ≡ rest
    grown : p.1.history ≡ s.history ++ said ∷ []

  abbrev later_answers : List (Result Json)
  later_answers = ok noted ∷ ok waits ∷ until_shutdown timeouts command rest

  -- the session in which the assistant's message is persisted
  abbrev speaking : Session
  speaking = record s {
    model = model_of o failure completion s.model;
    drawn = suc s.drawn;
    sent =
        s.sent ++ ("model.complete", completion_request o failure s.available_tools messages) ∷ [];
  }

  abbrev spoken : List Json → Action Bool
  spoken calls = elim calls [
    | call ∷ calls ↦ handle_tool_calls o failure (call ∷ calls)
    | [] ↦ request "agent.update_state" (stop_report "halted" "no_tool_calls") >>= λ answer.
        wait_for_command o failure false
  ]

  spoken-IsHalted :
      IsHalted
        (spoken (calls_of message) (kept_session (said ∷ []) confirmation later_answers speaking))
  unfolding request wait_for_command
  spoken-IsHalted = rw no_calls (
      let i = await_command-IsOver o failure command is_shutdown rest timeouts _ are_timeouts in
      record { told = i.told; left = i.left; grown = i.kept })

  turn-IsHalted : IsHalted (turn o failure answered)
  unfolding turn take_turn request
  turn-IsHalted =
      rw (valid, is_message)
        (subst IsHalted
          (sym (
            >>=-returns (persist (said ∷ [])) (λ u. spoken (calls_of message))
              (record speaking { answers = ok confirmation ∷ later_answers })
              (kept_session (said ∷ []) confirmation later_answers speaking) tt
              (persist-confirmed (said ∷ []) confirmation later_answers speaking is_confirmed)))
          spoken-IsHalted)

  -- A worker whose model asks for no tool, and which is told to shut down after any number of
  -- timeouts, ends its loop: it has read the answers up to the shutdown and no further, and its
  -- history has grown by what the model has said.
  pub run_turns-shut_down :
      (n : ℕ)
      → let (result, s') = run_turns o failure (suc n) answered in
        (result ≡ ok (some tt)) × (s'.answers ≡ rest) × (s'.history ≡ s.history ++ said ∷ [])
  unfolding run_turns
  run_turns-shut_down n =
      let i = turn-IsHalted in
      subst Halted
        (sym (
          >>=-returns (turn o failure) (next n) answered (turn o failure answered).1 false
            (ap (λ (r : Result Bool). (r, (turn o failure answered).1)) i.told)))
        (refl, i.left, i.grown)
    where
      next : ℕ → Bool → Action (Option (Unit {0}))
      next n going_on = if going_on then run_turns o failure n else pure (some tt)

      Halted : Result (Option (Unit {0})) × Session → Type 0
      Halted p =
          (p.0 ≡ ok (some tt)) × (p.1.answers ≡ rest) × (p.1.history ≡ s.history ++ said ∷ [])
