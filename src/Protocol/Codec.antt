-- ===== src/Protocol/Codec.antt =====
-- The messages of protocol.hpp together: what a reader makes of what was written.
use barbarossa.Common.{IsInt32, ◌<◌, ◌^◌, ◌≡◌, refl, List, [], ◌∷◌, Bool, true, false, arith}
use barbarossa.Errors.Outcome.{Outcome, ok, throws, ◌>>=◌}
use barbarossa.MessageType.{MessageType, to_ℕ, to_int}
use barbarossa.Json.{JsonLib, bad_type}
use barbarossa.Protocol.{details_or_object, BasicMessage, get_message_type}
use barbarossa.Protocol.Hello
use barbarossa.Protocol.Hello.{HelloMessage}
use barbarossa.Protocol.Welcome
use barbarossa.Protocol.Welcome.{WelcomeMessage}
use barbarossa.Protocol.Abort
use barbarossa.Protocol.Abort.{AbortMessage}
use barbarossa.Protocol.Ping
use barbarossa.Protocol.Ping.{PingMessage}
use barbarossa.Protocol.Pong
use barbarossa.Protocol.Pong.{PongMessage}
use barbarossa.Protocol.Error
use barbarossa.Protocol.Error.{ErrorMessage}

to_ℕ-lt : (t : MessageType) → to_ℕ t < 2 ^ 32
to_ℕ-lt MessageType.hello = omega arith
to_ℕ-lt _ = omega arith

module _ ⦃J : JsonLib⦄ where
  open J use {
    Json, null, array, of_int, get_uint, get_uint-of_int, get_uint-null, subscript-array,
    subscript-null, subscript-empty,
  }

  pub data AnyMessage : Type 0 where
    hello : HelloMessage → AnyMessage
    welcome : WelcomeMessage → AnyMessage
    abort : AbortMessage → AnyMessage
    ping : PingMessage → AnyMessage
    pong : PongMessage → AnyMessage
    error : ErrorMessage → AnyMessage

  abbrev pub kind : AnyMessage → MessageType
  kind (hello m) = MessageType.hello
  kind (welcome m) = MessageType.welcome
  kind (abort m) = MessageType.abort
  kind (ping m) = MessageType.ping
  kind (pong m) = MessageType.pong
  kind (error m) = MessageType.error

  -- `json j = msg`
  abbrev pub encode : AnyMessage → Outcome Json
  encode (hello m) = Hello.to_json null m
  encode (welcome m) = Welcome.to_json null m
  encode (abort m) = Abort.to_json null m
  encode (ping m) = Ping.to_json null m
  encode (pong m) = Pong.to_json null m
  encode (error m) = Error.to_json null m

  -- `j.get<T>()` for the class of `m`.
  abbrev pub decode_like : AnyMessage → Json → Outcome AnyMessage
  decode_like (hello m) j = do m ← Hello.from_json j; ok (hello m)
  decode_like (welcome m) j = do m ← Welcome.from_json j; ok (welcome m)
  decode_like (abort m) j = do m ← Abort.from_json j; ok (abort m)
  decode_like (ping m) j = do m ← Ping.from_json j; ok (ping m)
  decode_like (pong m) j = do m ← Pong.from_json j; ok (pong m)
  decode_like (error m) j = do m ← Error.from_json j; ok (error m)

  -- The ids are 32-bit integers.
  abbrev pub IsInRange : AnyMessage → Type 0
  IsInRange (welcome m) = IsInt32 m.session_id
  IsInRange (error m) = (m.request_type < 2 ^ 32) × IsInt32 m.request_id
  IsInRange _ = Unit {0}

  abbrev pub normal : AnyMessage → AnyMessage
  normal (hello m) = hello (record m { details = details_or_object m.details })
  normal (welcome m) = welcome (record m { details = details_or_object m.details })
  normal (abort m) = abort (record m { details = details_or_object m.details })
  normal (ping m) = ping (record m { details = details_or_object m.details })
  normal (pong m) = pong (record m { details = details_or_object m.details })
  normal (error m) = error (record m { details = details_or_object m.details })

  -- A message of any class whose ids are in range, written and read as its class, comes back as it was,
  -- with null details read as an empty object.
  pub decode-encode : (m : AnyMessage) → IsInRange m → (encode m >>= decode_like m) ≡ ok (normal m)
  decode-encode (hello m) h = ground (arith, Hello.from_json-to_json m)
  decode-encode (welcome m) h = ground (arith, Welcome.from_json-to_json m)
  decode-encode (abort m) h = ground (arith, Abort.from_json-to_json m)
  decode-encode (ping m) h = ground (arith, Ping.from_json-to_json m)
  decode-encode (pong m) h = ground (arith, Pong.from_json-to_json m)
  decode-encode (error m) h = ground (arith, Error.from_json-to_json m)

  abbrev pub is_pong : AnyMessage → Bool
  is_pong (pong m) = true
  is_pong _ = false

  abbrev basic : Json → BasicMessage
  basic j = record { j = j }

  read_type :
      (t : MessageType) (xs : List Json)
      → get_message_type (basic (array (of_int (to_int t) ∷ xs)))
        ≡ ok (to_ℕ t, basic (array (of_int (to_int t) ∷ xs)))
  unfolding get_message_type
  read_type t xs = rw (
    subscript-array (of_int (to_int t) ∷ xs) 0 (of_int (to_int t)) refl,
    get_uint-of_int (to_ℕ t) (to_ℕ-lt t),
  )

  pong_as_ping :
      (d : Json) → encode (pong (record { details = d })) ≡ encode (ping (record { details = d }))
  pong_as_ping d =
      rw (Pong.to_json_lem (record { details = d }), Ping.to_json_lem (record { details = d }))

  -- What is written is an array whose type reads as the type of the message's class, except for a
  -- PongMessage, whose type reads as PING, so that it is written as the PingMessage with its details is.
  pub encode-get_message_type :
      (m : AnyMessage)
      → (j : Json) × (encode m ≡ ok j)
        × (is_pong m ≡ false → get_message_type (basic j) ≡ ok (to_ℕ (kind m), basic j))
        × (is_pong m ≡ true → get_message_type (basic j) ≡ ok (to_ℕ MessageType.ping, basic j))
        × ((d : Json)
            → encode (pong (record { details = d })) ≡ encode (ping (record { details = d })))
  encode-get_message_type (hello m) =
      (_, Hello.to_json_lem m, λ e. read_type MessageType.hello _, λ e. cc, pong_as_ping)
  encode-get_message_type (welcome m) =
      (_, Welcome.to_json_lem m, λ e. read_type MessageType.welcome _, λ e. cc, pong_as_ping)
  encode-get_message_type (abort m) =
      (_, Abort.to_json_lem m, λ e. read_type MessageType.abort _, λ e. cc, pong_as_ping)
  encode-get_message_type (ping m) =
      (_, Ping.to_json_lem m, λ e. read_type MessageType.ping _, λ e. cc, pong_as_ping)
  encode-get_message_type (pong m) =
      (_, Pong.to_json_lem m, λ e. cc, λ e. read_type MessageType.ping _, pong_as_ping)
  encode-get_message_type (error m) =
      (_, Error.to_json_lem m, λ e. read_type MessageType.error _, λ e. cc, pong_as_ping)

  -- The type of null and of an empty array cannot be read: a type error.
  pub get_message_type_empty :
      (get_message_type (basic null) ≡ throws bad_type)
      × (get_message_type (basic (array [])) ≡ throws bad_type)
  unfolding get_message_type
  get_message_type_empty = (rw (subscript-null, get_uint-null), rw (subscript-empty, get_uint-null))
