-- ===== src/Protocol/Abort.antt =====
-- include/barbarossa/protocol.hpp, namespace abortmessage.
use barbarossa.Common.{Bool, ◌&&◌, str_eq, String, some, ◌≡◌, refl, List, [], ◌∷◌}
use barbarossa.Errors.Outcome.{Outcome, ok, ◌>>=◌}
use barbarossa.MessageType.{MessageType, to_int}
use barbarossa.Json.{JsonLib}
use barbarossa.Protocol.{details_or_object, member}
use barbarossa.Protocol.Members.{push_laws, member_lem}

module _ ⦃J : JsonLib⦄ where
  open J use {
    Json, null, array, object, equals, of_int, of_string, push_back, get_int, get_uint, get_string,
    get_int-of_int, get_uint-of_int, get_string-of_string,
  }

  pub record AbortMessage : Type 0 where
    pub reason : String
    pub details : Json

  -- The constructor without details.
  unfoldable pub create : String → AbortMessage
  create reason = record { reason = reason; details = object }

  -- The constructor without arguments.
  unfoldable create_default : AbortMessage
  unfolding create
  create_default = create ""

  -- The constructor with details, and the one that converts them from a type of its own.
  unfoldable pub create_with : String → Json → AbortMessage
  create_with reason details = record { reason = reason; details = details }

  unfoldable pub create_from : {A : Type 0} → (A → Outcome Json) → String → A → Outcome AbortMessage
  unfolding create_with
  create_from convert reason details = do j ← convert details; ok (create_with reason j)

  unfoldable pub set_reason : String → AbortMessage → AbortMessage
  set_reason x msg = record msg { reason = x }

  unfoldable pub set_details : Json → AbortMessage → AbortMessage
  set_details x msg = record msg { details = x }

  unfoldable pub set_details_from :
      {A : Type 0} → (A → Outcome Json) → A → AbortMessage → Outcome AbortMessage
  set_details_from convert x msg = do j ← convert x; ok (record msg { details = j })

  -- `details<T>()`
  unfoldable pub details_as : {A : Type 0} → (Json → Outcome A) → AbortMessage → Outcome A
  details_as get msg = get msg.details

  -- `operator==`
  unfoldable pub same : AbortMessage → AbortMessage → Bool
  same a b = str_eq a.reason b.reason && equals a.details b.details

  -- `to_json(j, msg)`
  unfoldable pub to_json : Json → AbortMessage → Outcome Json
  to_json j msg = do
    j ← push_back j (of_int (to_int MessageType.abort))
    j ← push_back j (of_string msg.reason)
    push_back j msg.details

  -- `from_json(j, msg)`
  unfoldable pub from_json : Json → Outcome AbortMessage
  from_json j = do
    reason ← member get_string 1 j
    details ← member (λ (d : Json). some d) 2 j
    ok (record { reason = reason; details = details_or_object details })

  abbrev pub written : AbortMessage → List Json
  written m = of_int (to_int MessageType.abort) ∷ of_string m.reason ∷ m.details ∷ []

  -- The message as JSON: an array of the type and the members, in the order of the declaration.
  pub to_json_lem : (m : AbortMessage) → to_json null m ≡ ok (array (written m))
  unfolding to_json
  to_json_lem m = simp push_laws

  -- Reading what was written gives the message back, with null details read as an empty object.
  pub from_json-to_json :
      (m : AbortMessage)
      → (do j ← to_json null m; from_json j)
        ≡ ok (record m { details = details_or_object m.details })
  unfolding from_json
  from_json-to_json m = rw (
    to_json_lem m,
    member_lem get_string (written m) 1 (of_string m.reason) m.reason refl
        (get_string-of_string m.reason),
    member_lem (λ (d : Json). some d) (written m) 2 m.details m.details refl refl,
  )
