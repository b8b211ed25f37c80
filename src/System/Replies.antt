-- ===== src/System/Replies.antt =====
-- How the handling of a CALL from the peer ends.
use barbarossa.Session.Calls.{called_answer, answer_lem}
use barbarossa.Session.Messages.{result_fields, error_fields}
use barbarossa.Common.{
  ℤ, String, Bool, true, false, not, ◌&&◌, ◌==◌, Option-cases, ◌≡◌, inl, inr, refl, List, [], ◌∷◌,
  Option, none, some, arith, if◌then◌else◌,
}
use barbarossa.Errors.Outcome.{Outcome, ok, throws, terminates, undefined, uncaught, or_throw}
use barbarossa.Json.{JsonLib, bad_type}
use barbarossa.Message.{Message, from_fields, field_as}
use barbarossa.Session.{Session, Operation, lookup, send_message, transmit}
use barbarossa.Session.Handlers.{process_call, answer}
use barbarossa.WebSocket.{WebSocket, is_connected}
use barbarossa.WebSocket.Callbacks
use barbarossa.WebSocket.Delivery.{to_array_lem}
use barbarossa.Main.{web_transport}

abbrev pub is_some : {A : Type 0} → Option A → Bool
is_some none = false
is_some (some a) = true

abbrev pub verdict : Bool → Outcome (Unit {0})
verdict true = terminates
verdict false = ok tt

module _ ⦃J : JsonLib⦄ where
  open J use {Json, array, dump, get_int, get_string}

  abbrev accepts : Option String → Bool
  accepts none = true
  accepts (some reason) = false

  -- Whether the client takes the text of a message, where it can be written out.
  abbrev takes : Option String → WebSocket → Bool
  takes none w = false
  takes (some text) w = accepts (w.client.send_error text)

  -- Whether a message that needs a joined session goes out.
  abbrev goes_out : Message → Session WebSocket → Bool
  goes_out m s =
      s.attached
      && (is_connected s.transport
          && (not (s.session_id == 0) && takes (dump (array m.fields)) s.transport))

  abbrev reply : Message → Session WebSocket → Outcome (Unit {0})
  reply m s = verdict (not (goes_out m s))

  -- The value of a registered operation: it must be one that can be written out for the log.
  abbrev result_reply : ℤ → Outcome Json → Session WebSocket → Outcome (Unit {0})
  result_reply id (ok r) s = if is_some (dump r) then reply (result_fields id r) s else terminates
  result_reply id (throws e) s = terminates
  result_reply id undefined s = undefined
  result_reply id terminates s = terminates

  abbrev operation_reply : ℤ → Option Operation → Json → Session WebSocket → Outcome (Unit {0})
  operation_reply id none arguments s = reply (error_fields id) s
  operation_reply id (some f) arguments s = result_reply id (f arguments) s

  abbrev read_reply : Option ℤ → Option String → Json → Session WebSocket → Outcome (Unit {0})
  read_reply (some id) (some name) arguments s =
      operation_reply id (lookup name s.operations) arguments s
  read_reply _ _ arguments s = terminates

  -- What a CALL with these values behind its code leads to.
  abbrev pub call_reply : List Json → Session WebSocket → Outcome (Unit {0})
  call_reply (i ∷ n ∷ arguments ∷ xs) s = read_reply (get_int i) (get_string n) arguments s
  call_reply _ s = terminates

  send_message-reply :
      (m : Message) (s : Session WebSocket) → uncaught (send_message m true s).0 ≡ reply m s
  unfolding send_message transmit Callbacks.send_message
  send_message-reply m s = rw (to_array_lem m) (ground arith)

  called_answer-reply :
      (id : ℤ) (v : Outcome Json) (s : Session WebSocket)
      → uncaught (called_answer id v s).0 ≡ result_reply id v s
  called_answer-reply id (ok r) s = elim (Option-cases (dump r)) [
    | inl e ↦ rw e refl
    | inr (text, e) ↦ rw e (send_message-reply (result_fields id r) s)
  ]
  called_answer-reply id (throws e) s = refl
  called_answer-reply id undefined s = refl
  called_answer-reply id terminates s = refl

  answer-reply :
      (id : ℤ) (arguments : Json) (o : Option Operation) (s : Session WebSocket)
      → uncaught (answer id arguments o s).0 ≡ operation_reply id o arguments s
  answer-reply id arguments none s =
      rw (answer_lem id arguments none s) (send_message-reply (error_fields id) s)
  answer-reply id arguments (some f) s =
      rw (answer_lem id arguments (some f) s) (called_answer-reply id (f arguments) s)

  field-second :
      {A : Type 0} (get : Json → Option A) (c i : Json) (xs : List Json)
      → field_as get 1 (from_fields (c ∷ i ∷ xs)) ≡ or_throw bad_type (get i)
  unfolding field_as
  field-second get c i xs = ground arith

  field-third :
      {A : Type 0} (get : Json → Option A) (c i n : Json) (xs : List Json)
      → field_as get 2 (from_fields (c ∷ i ∷ n ∷ xs)) ≡ or_throw bad_type (get n)
  unfolding field_as
  field-third get c i n xs = ground arith

  field-fourth :
      {A : Type 0} (get : Json → Option A) (c i n a : Json) (xs : List Json)
      → field_as get 3 (from_fields (c ∷ i ∷ n ∷ a ∷ xs)) ≡ or_throw bad_type (get a)
  unfolding field_as
  field-fourth get c i n a xs = ground arith

  whole_call-reply :
      (c i n arguments : Json) (xs : List Json) (s : Session WebSocket)
      → uncaught (process_call (from_fields (c ∷ i ∷ n ∷ arguments ∷ xs)) s).0
        ≡ read_reply (get_int i) (get_string n) arguments s
  unfolding process_call
  whole_call-reply c i n arguments xs s =
      rw
        (
          field-second get_int c i (n ∷ arguments ∷ xs),
          field-third get_string c i n (arguments ∷ xs),
          field-fourth (λ (j : Json). some j) c i n arguments xs,
        )
        (elim (Option-cases (get_int i)) [
          | inl e ↦ rw e refl
          | inr (id, e) ↦ elim (Option-cases (get_string n)) [
            | inl q ↦ rw (e, q) refl
            | inr (name, q) ↦ rw (e, q) (answer-reply id arguments (lookup name s.operations) s)
          ]
        ])

  pub process_call-reply :
      (c : Json) (xs : List Json) (s : Session WebSocket)
      → uncaught (process_call (from_fields (c ∷ xs)) s).0 ≡ call_reply xs s
  unfolding process_call field_as
  process_call-reply c [] s = refl
  process_call-reply c (i ∷ []) s = ground arith
  process_call-reply c (i ∷ n ∷ []) s = ground arith
  process_call-reply c (i ∷ n ∷ arguments ∷ xs) s = whole_call-reply c i n arguments xs s
