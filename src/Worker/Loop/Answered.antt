-- ===== src/Worker/Loop/Answered.antt =====
-- The calls of a model are answered, each by one message and in their order.
use tgent.Prelude.{
  String, Bool, true, false, not, ◌||◌, ◌≡◌, refl, ap, ◌∙◌, sym, List, [], ◌∷◌, ◌++◌, length,
}
use mathlib.Core.List.{append-nil, append_assoc}
use tgent.Result.{Result, ok, err}
use tgent.Json.{Json, str, obj, Fields, end, field, get_value, of_list, arr}
use tgent.Worker.Files.{get_or}
use tgent.Worker.Command.{format_tool_result}
use tgent.Worker.Session.{
  Outside, Session, Action, pure, finish, modify, ◌>>=◌, ◌>>◌, refuse_if, request,
}
use tgent.Worker.Session.Later.{Quiet, Leads, Quiet-refl, request-Quiet}
use tgent.Worker.Tools.Child.{execute_tool}
use tgent.Worker.Tools.Still.{or_error_result-Quiet, execute_tool-Quiet}
use tgent.Worker.Loop.{
  persist, confirms, draw, id_and_function, call_parts, parsed_arguments, call_result, tool_message,
  is_submission, record_result, result_of, answer_parts, answer_call, answer_calls,
}

-- The message answers the call: it is a tool message with the identifier of the call.
pub record IsAnswer (call message : Json) : Type 0 where
  pub fields : Fields
  pub is_call : call ≡ obj fields
  pub call_id : String
  pub has_id : get_value "id" fields ≡ str call_id
  pub content : String
  pub token : String
  pub is_message :
      message
      ≡ obj (
          field "role" (str "tool") (
            field "tool_call_id"
              (str call_id)
              (field "content" (str content) (field "id" (str token) end))))

pub data Answers : List Json → List Json → Type 0 where
  none_left : Answers [] []
  answered :
      {call message : Json} {calls messages : List Json}
      → IsAnswer call message
      → Answers calls messages
      → Answers (call ∷ calls) (message ∷ messages)

module _ {ℓ κ} {A : Type ℓ} {B : Type κ} (f : A → Action B) (b : B) where
  went_on :
      (r : Result A) (s : Session)
      → (elim r as (λ _. Result B × Session) [ ok a ↦ f a s | err e ↦ (err e, s) ]).0 ≡ ok b
      → (a : A) × (r ≡ ok a)
        × ((elim r as (λ _. Result B × Session) [ ok a ↦ f a s | err e ↦ (err e, s) ]) ≡ f a s)
  went_on (ok a) s h = (a, refl, refl)
  went_on (err e) s h = cc

  -- A chain that returns has run its first step.
  pub >>=-ran :
      (m : Action A) (s : Session)
      → ((m >>= f) s).0 ≡ ok b
      → (a : A) × ((m s).0 ≡ ok a) × ((m >>= f) s ≡ f a (m s).1)
  >>=-ran m s h = went_on (m s).0 (m s).1 h

module _ (messages : List Json) where
  abbrev confirmed : Json → Action (Unit {0})
  confirmed result =
      refuse_if (not (confirms (length messages) result))
        "Controller did not confirm transcript persistence"
      >> modify λ s. record s { history = s.history ++ messages }

  tested :
      (b : Bool) (s : Session)
      → ((refuse_if b "Controller did not confirm transcript persistence"
            >> modify λ s. record s { history = s.history ++ messages })
          s).0
        ≡ ok tt
      → ((refuse_if b "Controller did not confirm transcript persistence"
            >> modify λ s. record s { history = s.history ++ messages })
          s).1.history
        ≡ s.history ++ messages
  tested true s h = cc
  tested false s h = refl

  -- Messages that are persisted stand behind the history.
  pub persist-appended :
      (s : Session)
      → (persist messages s).0 ≡ ok tt
      → (persist messages s).1.history ≡ s.history ++ messages
  unfolding persist
  persist-appended s h =
      let m = request "history.append" (field "messages" (arr (of_list messages)) end) in
      let (result, asked, same) = >>=-ran confirmed tt m s h in
      ap (λ (p : Result (Unit {0}) × Session). p.1.history) same
      ∙ tested (not (confirms (length messages) result)) (m s).1
          (sym (ap (λ (p : Result (Unit {0}) × Session). p.0) same) ∙ h)
      ∙ ap (λ (history : List Json). history ++ messages)
          (request-Quiet "history.append" (field "messages" (arr (of_list messages)) end) s).kept

module _ (o : Outside) (failure : Json → Json → String) where
  call_result-Quiet : (name arguments : Json) → Leads Quiet (call_result o failure name arguments)
  call_result-Quiet (str name) (obj arguments) =
      or_error_result-Quiet (execute_tool o failure name arguments)
        (execute_tool-Quiet o failure name arguments)
  call_result-Quiet _ _ = λ s. Quiet-refl s

  pub result_of-Quiet : (parts : Json × Fields) → Leads Quiet (result_of o failure parts)
  result_of-Quiet parts =
      call_result-Quiet (get_value "name" parts.1)
        (parsed_arguments o failure (get_or "arguments" (str "{}") parts.1))

  -- The message that answers a call, with the token that is drawn for it.
  abbrev answer_message : Json × Fields → Json → Session → Json
  answer_message parts result s = tool_message o failure parts.0 result (o.token s.drawn)

  record_result-appended :
      (parts : Json × Fields) (result : Json) (s : Session) {b : Bool}
      → (record_result o failure parts result s).0 ≡ ok b
      → (record_result o failure parts result s).1.history
        ≡ s.history ++ answer_message parts result s ∷ []
  record_result-appended parts result s {b} h =
      let s1 : Session = (draw o s).1 in
      let ms : List Json = answer_message parts result s ∷ [] in
      let f : Unit {0} → Action Bool =
        λ u. pure (is_submission o failure (get_value "name" parts.1) result) in
      let (u, recorded, same) = >>=-ran f b (persist ms) s1 h in
      ap (λ (p : Result Bool × Session). p.1.history) same ∙ persist-appended ms s1 recorded

  parts_of :
      (call : Json) {parts : Json × Fields}
      → call_parts o failure call ≡ ok parts
      → (fields : Fields) × (call ≡ obj fields)
        × (call_id : String) × (get_value "id" fields ≡ str call_id)
        × (parts.0 ≡ str call_id)
  parts_of (obj fields) {parts} e =
      shown (get_value "id" fields) (get_value "function" fields) refl e
    where
      shown :
          (v w : Json)
          → get_value "id" fields ≡ v
          → id_and_function o failure v w ≡ ok parts
          → (fs : Fields) × (obj fields ≡ obj fs)
            × (call_id : String) × (get_value "id" fs ≡ str call_id)
            × (parts.0 ≡ str call_id)
      shown (str call_id) (obj function) is_id e = (fields, refl, call_id, is_id, cc)
      shown _ _ is_id e = cc
  parts_of _ e = cc

  answer_call-IsAnswer :
      (call : Json) (s : Session) {b : Bool}
      → (answer_call o failure call s).0 ≡ ok b
      → (message : Json) × IsAnswer call message
        × ((answer_call o failure call s).1.history ≡ s.history ++ message ∷ [])
  unfolding answer_call
  answer_call-IsAnswer call s {b} h =
      let (parts, is_parts, same) =
        >>=-ran (answer_parts o failure) b (finish (call_parts o failure call)) s h in
      let (fields, is_call, call_id, has_id, first) = parts_of call is_parts in
      let (result, is_result, same') =
        >>=-ran (record_result o failure parts) b (result_of o failure parts) s
          (sym (ap (λ (p : Result Bool × Session). p.0) same) ∙ h) in
      let s1 : Session = (result_of o failure parts s).1 in
      let recorded = sym (ap (λ (p : Result Bool × Session). p.0) (same ∙ same')) ∙ h in
      (
        answer_message parts result s1,
        record {
          fields = fields;
          is_call = is_call;
          call_id = call_id;
          has_id = has_id;
          content = format_tool_result o.dumps result;
          token = o.token s1.drawn;
          is_message = ap (λ (v : Json). tool_message o failure v result (o.token s1.drawn)) first;
        },
        ap (λ (p : Result Bool × Session). p.1.history) (same ∙ same')
            ∙ record_result-appended parts result s1 recorded
            ∙ ap (λ (history : List Json). history ++ answer_message parts result s1 ∷ [])
                (result_of-Quiet parts s).kept,
      )

  -- Where the calls of a model have been answered, the history has grown by one message for each call, in
  -- the order of the calls: a tool message with the identifier of the call, whether the tool has
  -- returned or failed.
  pub answer_calls-Answers :
      (calls : List Json) (s : Session) {b : Bool}
      → (answer_calls o failure calls s).0 ≡ ok b
      → (messages : List Json) × Answers calls messages
        × ((answer_calls o failure calls s).1.history ≡ s.history ++ messages)
  unfolding answer_calls
  answer_calls-Answers [] s h = ([], none_left, sym (append-nil s.history))
  answer_calls-Answers (call ∷ calls) s {b} h =
      let go_on : Bool → Action Bool =
        λ submitted. answer_calls o failure calls >>= λ later. pure (submitted || later) in
      let (submitted, first, same) = >>=-ran go_on b (answer_call o failure call) s h in
      let s1 : Session = (answer_call o failure call s).1 in
      let end_with : Bool → Action Bool = λ later. pure (submitted || later) in
      let (later, rest, same') =
        >>=-ran end_with b (answer_calls o failure calls) s1
          (sym (ap (λ (p : Result Bool × Session). p.0) same) ∙ h) in
      let (message, is_answer, grown) = answer_call-IsAnswer call s first in
      let (messages, are_answers, grown') = answer_calls-Answers calls s1 rest in
      (
        message ∷ messages,
        answered is_answer are_answers,
        ap (λ (p : Result Bool × Session). p.1.history) (same ∙ same')
            ∙ grown'
            ∙ ap (λ (history : List Json). history ++ messages) grown
            ∙ append_assoc s.history (message ∷ []) messages,
      )
