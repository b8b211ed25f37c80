-- ===== src/Protocol/Ping.antt =====
-- include/barbarossa/protocol.hpp, namespace pingmessage.
use barbarossa.Common.{Bool, some, ◌≡◌, refl, List, [], ◌∷◌}
use barbarossa.Errors.Outcome.{Outcome, ok, ◌>>=◌}
use barbarossa.MessageType.{MessageType, to_int}
use barbarossa.Json.{JsonLib}
use barbarossa.Protocol.{details_or_object, member}
use barbarossa.Protocol.Members.{push_laws, member_lem}

module _ ⦃J : JsonLib⦄ where
  open J use {
    Json, null, array, object, equals, of_int, of_string, push_back, get_int, get_uint, get_string,
    get_int-of_int, get_uint-of_int, get_string-of_string,
  }

  pub record PingMessage : Type 0 where
    pub details : Json

  -- The constructor without details.
  unfoldable pub create : PingMessage
  create = record { details = object }

  -- The constructor with details, and the one that converts them from a type of its own.
  unfoldable pub create_with : Json → PingMessage
  create_with details = record { details = details }

  unfoldable pub create_from : {A : Type 0} → (A → Outcome Json) → A → Outcome PingMessage
  unfolding create_with
  create_from convert details = do j ← convert details; ok (create_with j)

  unfoldable pub set_details : Json → PingMessage → PingMessage
  set_details x msg = record msg { details = x }

  unfoldable pub set_details_from :
      {A : Type 0} → (A → Outcome Json) → A → PingMessage → Outcome PingMessage
  set_details_from convert x msg = do j ← convert x; ok (record msg { details = j })

  -- `details<T>()`
  unfoldable pub details_as : {A : Type 0} → (Json → Outcome A) → PingMessage → Outcome A
  details_as get msg = get msg.details

  -- `operator==`
  unfoldable pub same : PingMessage → PingMessage → Bool
  same a b = equals a.details b.details

  -- `to_json(j, msg)`
  unfoldable pub to_json : Json → PingMessage → Outcome Json
  to_json j msg = do j ← push_back j (of_int (to_int MessageType.ping)); push_back j msg.details

  -- `from_json(j, msg)`
  unfoldable pub from_json : Json → Outcome PingMessage
  from_json j = do
    details ← member (λ (d : Json). some d) 1 j
    ok (record { details = details_or_object details })

  abbrev pub written : PingMessage → List Json
  written m = of_int (to_int MessageType.ping) ∷ m.details ∷ []

  -- The message as JSON: an array of the type and the members, in the order of the declaration.
  pub to_json_lem : (m : PingMessage) → to_json null m ≡ ok (array (written m))
  unfolding to_json
  to_json_lem m = simp push_laws

  -- Reading what was written gives the message back, with null details read as an empty object.
  pub from_json-to_json :
      (m : PingMessage)
      → (do j ← to_json null m; from_json j)
        ≡ ok (record m { details = details_or_object m.details })
  unfolding from_json
  from_json-to_json m =
      rw (
        to_json_lem m,
        member_lem (λ (d : Json). some d) (written m) 1 m.details m.details refl refl,
      )
