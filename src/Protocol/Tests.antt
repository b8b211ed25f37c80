-- ===== src/Protocol/Tests.antt =====
-- The theorems on the protocol's messages at concrete messages.
use barbarossa.Common.{refl, List, ◌∷◌, [], pos, ◌≡◌, true, false, some, arith}
use barbarossa.Errors.Outcome.{ok, undefined, throws, ◌>>=◌}
use barbarossa.Protocol.Typed.{
  same, details_of, same_after_reading, remake, with_details, read_details, read_details-remake,
}
use barbarossa.MessageType.{MessageType, to_ℕ}
use barbarossa.Json.{bad_type}
use barbarossa.Json.Sample.{Value, null, num, str, obj, entry, no_members, sample_json}
use barbarossa.Protocol.{get_message_type, member, details_or_object}
use barbarossa.Protocol.Ping
use barbarossa.Protocol.Reading.{read_like, read_welcome, decode_like_lem}
use barbarossa.Protocol.Codec.{
  AnyMessage, welcome, ping, pong, error, encode, decode_like, kind, normal, is_pong, decode-encode,
  encode-get_message_type,
}
use barbarossa.Protocol.Details
use barbarossa.Protocol.Details.{WelcomeDetails, details_round_trip}

abbrev refusal : AnyMessage
refusal = error (record {
  request_type = 10;
  request_id = pos 3;
  error = "ERR_NO_SUCH_OPERATION";
  details = null;
})

decode-encode_example : (encode refusal >>= decode_like refusal) ≡ ok (normal refusal)
decode-encode_example = decode-encode refusal (omega arith, omega arith)

encode-get_message_type_example :
    (j : Value) × (encode refusal ≡ ok j)
    × (is_pong refusal ≡ false
        → get_message_type (record { j = j }) ≡ ok (to_ℕ (kind refusal), record { j = j }))
    × (is_pong refusal ≡ true
        → get_message_type (record { j = j }) ≡ ok (to_ℕ MessageType.ping, record { j = j }))
    × ((d : Value)
        → encode (pong (record { details = d })) ≡ encode (ping (record { details = d })))
encode-get_message_type_example = encode-get_message_type refusal

abbrev details : WelcomeDetails
details = record {
  session_timeout = pos 120;
  ping_interval = pos 104;
  pong_timeout = pos 16;
  events_topic = "events";
}

details_written_and_read :
    (j : Value) × (Details.to_json null details ≡ ok j)
    × (Details.from_json j ≡ ok details)
    × (sample_json.find_key j "pong_max_wait_time" ≡ some (num (pos 16)))
details_written_and_read = details_round_trip details (omega arith) (omega arith) (omega arith)

same_after_reading_example :
    (r : AnyMessage) × ((encode refusal >>= decode_like refusal) ≡ ok r)
    × (sample_json.is_null null ≡ false
        → sample_json.equals null null ≡ true
        → same r refusal ≡ true)
    × (details_of refusal ≡ null → same r refusal ≡ false)
same_after_reading_example = same_after_reading refusal (omega arith, omega arith)

abbrev welcome_details : Value
welcome_details = obj (
    entry "session_timeout" (num (pos 120)) (
      entry "ping_interval" (num (pos 104)) (
        entry "pong_max_wait_time" (num (pos 16))
          (entry "events_topic" (str "events") no_members))))

welcome_details_written : Details.to_json null details ≡ ok welcome_details
unfolding Details.to_json
welcome_details_written = refl

welcome_details_read : Details.from_json welcome_details ≡ ok details
unfolding Details.from_json Details.at
welcome_details_read = refl

abbrev greeting_message : AnyMessage
greeting_message = welcome (record { session_id = pos 7; details = null })

read_details-remake_example :
    ((do
      r ← remake (Details.to_json null) greeting_message details
      q ← (encode r >>= decode_like greeting_message)
      read_details Details.from_json q)
      ≡ ok details)
    × (with_details (Details.to_json null) details greeting_message
        ≡ remake (Details.to_json null) greeting_message details)
read_details-remake_example =
    read_details-remake (Details.to_json null) Details.from_json details welcome_details
      greeting_message (omega arith) welcome_details_written refl welcome_details_read

abbrev only_id : List Value
only_id = num (pos 7) ∷ []

decode_like_example :
    (decode_like greeting_message (sample_json.array (num (pos 2) ∷ only_id))
      ≡ read_like greeting_message only_id)
    × (decode_like greeting_message (sample_json.array []) ≡ undefined)
    × (decode_like greeting_message (obj no_members) ≡ throws bad_type)
decode_like_example = decode_like_lem greeting_message (num (pos 2)) only_id (obj no_members) refl

-- A WELCOME without details.
short_welcome : read_like greeting_message only_id ≡ undefined
unfolding read_welcome
short_welcome = refl

-- A PONG that is read as a PingMessage.
pong_read_as_ping :
    decode_like
      (ping (record { details = null }))
      (sample_json.array (num (pos 5) ∷ obj no_members ∷ []))
    ≡ ok (ping (record { details = obj no_members }))
unfolding Ping.from_json member details_or_object
pong_read_as_ping = refl
