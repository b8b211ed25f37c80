-- ===== src/WebSocket/Delivery.antt =====
-- websocket_transport.ipp, `SendMessage` and `RecvMessage`: the messages that go out and come in.
use barbarossa.Common.{
  suc, ◌<◌, ◌≡◌, refl, ap, String, Bool, true, false, none, some, List, [], ◌∷◌, ◌++◌, length,
  get_elem?-append, set, replicate, arith,
}
use mathlib.Core.List.{append-nil, append_assoc}
use barbarossa.Errors.{network_error, json_error, parse_error}
use barbarossa.Errors.Outcome.{ok, throws}
use barbarossa.Json.{JsonLib, bad_type}
use barbarossa.Message.{Message, from_fields, size, sized, field_at, set_field}
use barbarossa.Transport.{TransportHandler}
use barbarossa.WebSocket.{WebSocket, send}
use barbarossa.WebSocket.Callbacks.{collect, to_array, send_message}
use barbarossa.WebSocket.Receive.{HasWebSocket, fill, from_array, recv_message, on_client_message}

set-append {ℓ} :
    {A : Type ℓ} (xs ys : List A) (y z : A) → set (xs ++ y ∷ ys) (length xs) z ≡ xs ++ z ∷ ys
set-append [] ys y z = refl
set-append (x ∷ xs) ys y z = ap (◌∷◌ x) (set-append xs ys y z)

length-lt-append {ℓ} : {A : Type ℓ} (xs ys : List A) (y : A) → length xs < length (xs ++ y ∷ ys)
length-lt-append [] ys y = omega arith
length-lt-append (x ∷ xs) ys y = omega (arith, length-lt-append xs ys y)

length-concat {ℓ} : {A : Type ℓ} (xs : List A) (y : A) → length (xs ++ y ∷ []) ≡ suc (length xs)
length-concat [] y = refl
length-concat (x ∷ xs) y = omega (arith, length-concat xs y)

module _ ⦃J : JsonLib⦄ where
  open J use {Json, null, array, elements, elements-array, push_back, push_back-array, dump, parse}

  field_at-append :
      (xs ys : List Json) (y : Json) → field_at (length xs) (from_fields (xs ++ y ∷ ys)) ≡ ok y
  unfolding field_at
  field_at-append xs ys y = ground (arith, get_elem?-append xs ys y, length-lt-append xs ys y)

  set_field-append :
      (xs ys : List Json) (y z : Json)
      → set_field (length xs) z (from_fields (xs ++ y ∷ ys)) ≡ ok (from_fields (xs ++ z ∷ ys))
  unfolding set_field
  set_field-append xs ys y z = ground (arith, set-append xs ys y z, length-lt-append xs ys y)

  collect_lem :
      (xs ys : List Json)
      → collect (length ys) (length xs) (from_fields (xs ++ ys)) (array xs) ≡ ok (array (xs ++ ys))
  unfolding collect
  collect_lem xs [] = rw append-nil
  collect_lem xs (y ∷ ys) =
      rw (field_at-append xs ys y, push_back-array xs y)
        (rw (← length-concat xs y, ← append_assoc xs (y ∷ []) ys) (collect_lem (xs ++ y ∷ []) ys))

  -- The loop of `SendMessage` makes the array of the message's fields.
  pub to_array_lem : (m : Message) → to_array m ≡ ok (array m.fields)
  unfolding to_array size
  to_array_lem m = collect_lem [] m.fields

  fill_lem :
      (xs ys : List Json)
      → fill ys (length xs) (from_fields (xs ++ replicate (length ys) null))
        ≡ ok (from_fields (xs ++ ys))
  unfolding fill
  fill_lem xs [] = refl
  fill_lem xs (y ∷ ys) = rw (set_field-append xs (replicate (length ys) null) null y) (
      rw
        (
          ← length-concat xs y,
          ← append_assoc xs (y ∷ []) (replicate (length ys) null),
          ← append_assoc xs (y ∷ []) ys,
        )
        (fill_lem (xs ++ y ∷ []) ys))

  -- The loop of `RecvMessage` makes the message of the array's values.
  pub from_array_lem : (xs : List Json) → from_array xs ≡ ok (from_fields xs)
  unfolding from_array sized
  from_array_lem xs = fill_lem [] xs

  -- What `SendMessage` hands to the client is the text of the array of the message's fields, once; the
  -- code of the client decides whether the call returns or throws a network error. A message that cannot
  -- be written out throws and sends nothing.
  pub send_message_lem :
      (m : Message) (w : WebSocket)
      → ((text : String)
          → dump (array m.fields) ≡ some text
          → let sent = record w { commands = w.commands ++ send text ∷ [] } in
            (w.client.send_error text ≡ none → send_message m w ≡ (ok tt, sent))
            × ((reason : String)
                → w.client.send_error text ≡ some reason
                → send_message m w ≡ (throws (network_error reason), sent)))
        × (dump (array m.fields) ≡ none → send_message m w ≡ (throws bad_type, w))
  unfolding send_message
  send_message_lem m w =
      rw (to_array_lem m) (λ text p. rw p (λ e. ground arith, λ reason e. ground arith), λ p. rw p)

module _ ⦃J : JsonLib⦄ {S : Type 0} ⦃h : HasWebSocket S⦄ ⦃th : TransportHandler S⦄ where
  open J use {Json, array, elements, elements-array, dump, parse}

  pub on_client_message_received :
      (m : Message) (text : String) (s : S)
      → parse text ≡ some (array m.fields)
      → (h.web s).has_handler ≡ true
      → on_client_message true text s ≡ th.on_message m s
  unfolding on_client_message recv_message
  on_client_message_received m text s q b =
      rw (b, q, elements-array m.fields, from_array_lem m.fields)

  -- A message that one transport sent comes out at another as it went in: the text that `send_message`
  -- made of it, received in a text frame by a transport with a handler, calls the handler with the message.
  -- The text must parse to what it was written from.
  pub recv_message-send_message :
      (m : Message) (text : String) (w : WebSocket) (s : S)
      → dump (array m.fields) ≡ some text
      → parse text ≡ some (array m.fields)
      → (h.web s).has_handler ≡ true
      → ((send_message m w).1.commands ≡ w.commands ++ send text ∷ [])
        × (on_client_message true text s ≡ th.on_message m s)
  unfolding send_message
  recv_message-send_message m text w s p q b =
      (rw (to_array_lem m, p) (ground arith), on_client_message_received m text s q b)

  -- What is received does nothing where there is no handler, the frame is no text frame, or the text is
  -- JSON but no array; a text that is no JSON throws and does nothing else.
  pub on_client_message_dropped :
      (is_text : Bool) (text : String) (s : S)
      → ((h.web s).has_handler ≡ false → on_client_message is_text text s ≡ (ok tt, s))
        × (is_text ≡ false → on_client_message is_text text s ≡ (ok tt, s))
        × ((j : Json)
            → parse text ≡ some j
            → elements j ≡ none
            → on_client_message is_text text s ≡ (ok tt, s))
        × (is_text ≡ true
            → (h.web s).has_handler ≡ true
            → parse text ≡ none
            → on_client_message is_text text s ≡ (throws (json_error parse_error), s))
  unfolding on_client_message recv_message
  on_client_message_dropped is_text text s =
      (λ e. ground arith, λ e. ground arith, λ j p q. ground arith, λ a b p. ground arith)
