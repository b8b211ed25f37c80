-- ===== src/Session/Calls.antt =====
-- session.ipp, `ProcessCallMessage`: what a CALL is answered with.
use barbarossa.Common.{
  refl, inl, inr, Option, ◌∙◌, Option-cases, ℤ, IsInt32, ◌≡◌, String, none, some, [], ◌∷◌, arith,
  true,
}
use barbarossa.Session.Messages.{
  result_message, result_fields, error_fields, result_message_lem, error_message_lem,
}
use barbarossa.Errors.Outcome.{or_throw, Outcome, undefined, terminates, ok, throws}
use barbarossa.Errors.Exec.{◌>>=◌, ◌>>◌, Action, throw, lift}
use barbarossa.Json.{bad_type, JsonLib}
use barbarossa.MessageType.{call, to_int}
use barbarossa.MessageType.Codes.{from_int-to_int}
use barbarossa.Message.{Message, from_fields, field_as, size}
use barbarossa.Transport.{Transport}
use barbarossa.Session.{Session, Operation, lookup, send_message}
use barbarossa.Session.Handlers.{answer, process_call, on_message}

module _ ⦃J : JsonLib⦄ where
  open J use {Json, of_int, of_string}

  -- A CALL of the operation `name` as a peer writes it.
  abbrev pub call_fields : ℤ → String → Json → Message
  call_fields id name arguments =
      from_fields (of_int (to_int call) ∷ of_int id ∷ of_string name ∷ arguments ∷ [])

module _ ⦃J : JsonLib⦄ {T : Type 0} ⦃tr : Transport T⦄ where
  open J use {
    Json, of_int, of_string, get_int, get_string, get_int-of_int, get_string-of_string, dump,
  }

  -- The handler looks the operation up and answers.
  on_message-call :
      (id : ℤ) (name : String) (arguments : Json) (s : Session T)
      → IsInt32 id
      → on_message (call_fields id name arguments) s
        ≡ answer id arguments (lookup name s.operations) s
  unfolding on_message process_call field_as size
  on_message-call id name arguments s h =
      rw (get_int-of_int (to_int call) (omega arith), from_int-to_int call)
        (rw (get_int-of_int id h, get_string-of_string name))

  -- What is done with the value of an operation, and with none.
  abbrev pub value_answer : ℤ → Json → Option String → Action (Session T)
  value_answer id r none = throw bad_type
  value_answer id r (some text) = send_message (result_fields id r) true

  abbrev pub called_answer : ℤ → Outcome Json → Action (Session T)
  called_answer id (ok r) = value_answer id r (dump r)
  called_answer id (throws e) = throw e
  called_answer id undefined = lift undefined
  called_answer id terminates = lift terminates

  abbrev pub call_answer : ℤ → Json → Option Operation → Action (Session T)
  call_answer id arguments none = send_message (error_fields id) true
  call_answer id arguments (some f) = called_answer id (f arguments)

  written-answer :
      (id : ℤ) (v : Outcome Json) (s : Session T)
      → let rest : Json → Session T → Outcome (Unit {0}) × Session T = λ r. (do
        lift (or_throw bad_type (dump r))
        m ← lift (result_message id r)
        send_message m true) in
        (lift v >>= rest) s ≡ called_answer id v s
  written-answer id (ok r) s = elim (Option-cases (dump r)) [
    | inl e ↦ rw e refl
    | inr (text, e) ↦ rw (e, result_message_lem id r) refl
  ]
  written-answer id (throws e) s = refl
  written-answer id undefined s = refl
  written-answer id terminates s = refl

  pub answer_lem :
      (id : ℤ) (arguments : Json) (o : Option Operation) (s : Session T)
      → answer id arguments o s ≡ call_answer id arguments o s
  unfolding answer
  answer_lem id arguments none s = rw (error_message_lem id) refl
  answer_lem id arguments (some f) s = written-answer id (f arguments) s

  -- A CALL of an operation that is not registered is answered by one ERROR message with the request's id
  -- and ERR_NO_SUCH_OPERATION. A CALL of a registered one calls it once with the arguments: a value that can
  -- be written out is answered by one RESULT message with the request's id and the value; where the value
  -- cannot be written out, or the operation throws, the handler throws and sends nothing.
  pub on_message-call_answer :
      (id : ℤ) (name : String) (arguments : Json) (s : Session T)
      → IsInt32 id
      → on_message (call_fields id name arguments) s
        ≡ call_answer id arguments (lookup name s.operations) s
  on_message-call_answer id name arguments s h =
      on_message-call id name arguments s h ∙ answer_lem id arguments (lookup name s.operations) s
