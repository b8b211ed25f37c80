-- ===== src/Protocol/Welcome.antt =====
-- include/barbarossa/protocol.hpp, namespace welcomemessage.
use barbarossa.Common.{Bool, ◌&&◌, int_eq, ℤ, IsInt32, some, ◌≡◌, refl, List, [], ◌∷◌}
use barbarossa.Errors.Outcome.{Outcome, ok, ◌>>=◌}
use barbarossa.MessageType.{MessageType, to_int}
use barbarossa.Json.{JsonLib}
use barbarossa.Protocol.{details_or_object, member}
use barbarossa.Protocol.Members.{push_laws, member_lem}

module _ ⦃J : JsonLib⦄ where
  open J use {
    Json, null, array, object, equals, of_int, of_string, push_back, get_int, get_uint, get_string,
    get_int-of_int, get_uint-of_int, get_string-of_string,
  }

  pub record WelcomeMessage : Type 0 where
    pub session_id : ℤ
    pub details : Json

  -- The constructor without details.
  unfoldable pub create : ℤ → WelcomeMessage
  create session_id = record { session_id = session_id; details = object }

  -- The constructor without arguments; a number that it does not set may be any.
  unfoldable create_default : ℤ → WelcomeMessage
  unfolding create
  create_default session_id = create session_id

  -- The constructor with details, and the one that converts them from a type of its own.
  unfoldable pub create_with : ℤ → Json → WelcomeMessage
  create_with session_id details = record { session_id = session_id; details = details }

  unfoldable pub create_from : {A : Type 0} → (A → Outcome Json) → ℤ → A → Outcome WelcomeMessage
  unfolding create_with
  create_from convert session_id details = do j ← convert details; ok (create_with session_id j)

  unfoldable pub set_session_id : ℤ → WelcomeMessage → WelcomeMessage
  set_session_id x msg = record msg { session_id = x }

  unfoldable pub set_details : Json → WelcomeMessage → WelcomeMessage
  set_details x msg = record msg { details = x }

  unfoldable pub set_details_from :
      {A : Type 0} → (A → Outcome Json) → A → WelcomeMessage → Outcome WelcomeMessage
  set_details_from convert x msg = do j ← convert x; ok (record msg { details = j })

  -- `details<T>()`
  unfoldable pub details_as : {A : Type 0} → (Json → Outcome A) → WelcomeMessage → Outcome A
  details_as get msg = get msg.details

  -- `operator==`
  unfoldable pub same : WelcomeMessage → WelcomeMessage → Bool
  same a b = int_eq a.session_id b.session_id && equals a.details b.details

  -- `to_json(j, msg)`
  unfoldable pub to_json : Json → WelcomeMessage → Outcome Json
  to_json j msg = do
    j ← push_back j (of_int (to_int MessageType.welcome))
    j ← push_back j (of_int msg.session_id)
    push_back j msg.details

  -- `from_json(j, msg)`
  unfoldable pub from_json : Json → Outcome WelcomeMessage
  from_json j = do
    session_id ← member get_int 1 j
    details ← member (λ (d : Json). some d) 2 j
    ok (record { session_id = session_id; details = details_or_object details })

  abbrev pub written : WelcomeMessage → List Json
  written m = of_int (to_int MessageType.welcome) ∷ of_int m.session_id ∷ m.details ∷ []

  -- The message as JSON: an array of the type and the members, in the order of the declaration.
  pub to_json_lem : (m : WelcomeMessage) → to_json null m ≡ ok (array (written m))
  unfolding to_json
  to_json_lem m = simp push_laws

  -- Reading what was written gives the message back, with null details read as an empty object.
  pub from_json-to_json :
      (m : WelcomeMessage)
      → IsInt32 m.session_id
      → (do j ← to_json null m; from_json j)
        ≡ ok (record m { details = details_or_object m.details })
  unfolding from_json
  from_json-to_json m h = rw (
    to_json_lem m,
    member_lem get_int (written m) 1 (of_int m.session_id) m.session_id refl
        (get_int-of_int m.session_id h),
    member_lem (λ (d : Json). some d) (written m) 2 m.details m.details refl refl,
  )
