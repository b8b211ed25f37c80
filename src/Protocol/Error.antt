-- ===== src/Protocol/Error.antt =====
-- include/barbarossa/protocol.hpp, namespace errormessage.
use barbarossa.Common.{
  Bool, ◌&&◌, str_eq, int_eq, ◌==◌, ℕ, ℤ, pos, IsInt32, ◌<◌, ◌^◌, String, some, ◌≡◌, refl, List, [],
  ◌∷◌,
}
use barbarossa.Errors.Outcome.{Outcome, ok, ◌>>=◌}
use barbarossa.MessageType.{MessageType, to_int}
use barbarossa.Json.{JsonLib}
use barbarossa.Protocol.{details_or_object, member}
use barbarossa.Protocol.Members.{push_laws, member_lem}

module _ ⦃J : JsonLib⦄ where
  open J use {
    Json, null, array, object, equals, of_int, of_string, push_back, get_int, get_uint, get_string,
    get_int-of_int, get_uint-of_int, get_string-of_string,
  }

  pub record ErrorMessage : Type 0 where
    pub request_type : ℕ
    pub request_id : ℤ
    pub error : String
    pub details : Json

  -- The constructor without details.
  unfoldable pub create : ℕ → ℤ → String → ErrorMessage
  create request_type request_id error = record {
    request_type = request_type;
    request_id = request_id;
    error = error;
    details = object;
  }

  -- The constructor without arguments; a number that it does not set may be any.
  unfoldable create_default : ℕ → ℤ → ErrorMessage
  unfolding create
  create_default request_type request_id = create request_type request_id ""

  -- The constructor with details, and the one that converts them from a type of its own.
  unfoldable pub create_with : ℕ → ℤ → String → Json → ErrorMessage
  create_with request_type request_id error details = record {
    request_type = request_type;
    request_id = request_id;
    error = error;
    details = details;
  }

  unfoldable pub create_from :
      {A : Type 0} → (A → Outcome Json) → ℕ → ℤ → String → A → Outcome ErrorMessage
  unfolding create_with
  create_from convert request_type request_id error details = do
    j ← convert details
    ok (create_with request_type request_id error j)

  unfoldable pub set_request_type : ℕ → ErrorMessage → ErrorMessage
  set_request_type x msg = record msg { request_type = x }

  unfoldable pub set_request_id : ℤ → ErrorMessage → ErrorMessage
  set_request_id x msg = record msg { request_id = x }

  unfoldable pub set_error : String → ErrorMessage → ErrorMessage
  set_error x msg = record msg { error = x }

  unfoldable pub set_details : Json → ErrorMessage → ErrorMessage
  set_details x msg = record msg { details = x }

  unfoldable pub set_details_from :
      {A : Type 0} → (A → Outcome Json) → A → ErrorMessage → Outcome ErrorMessage
  set_details_from convert x msg = do j ← convert x; ok (record msg { details = j })

  -- `details<T>()`
  unfoldable pub details_as : {A : Type 0} → (Json → Outcome A) → ErrorMessage → Outcome A
  details_as get msg = get msg.details

  -- `operator==`
  unfoldable pub same : ErrorMessage → ErrorMessage → Bool
  same a b =
      (a.request_type == b.request_type)
      && int_eq a.request_id b.request_id
      && str_eq a.error b.error
      && equals a.details b.details

  -- `to_json(j, msg)`
  unfoldable pub to_json : Json → ErrorMessage → Outcome Json
  to_json j msg = do
    j ← push_back j (of_int (to_int MessageType.error))
    j ← push_back j (of_int (pos msg.request_type))
    j ← push_back j (of_int msg.request_id)
    j ← push_back j (of_string msg.error)
    push_back j msg.details

  -- `from_json(j, msg)`
  unfoldable pub from_json : Json → Outcome ErrorMessage
  from_json j = do
    request_type ← member get_uint 1 j
    request_id ← member get_int 2 j
    error ← member get_string 3 j
    details ← member (λ (d : Json). some d) 4 j
    ok (record {
      request_type = request_type;
      request_id = request_id;
      error = error;
      details = details_or_object details;
    })

  abbrev pub written : ErrorMessage → List Json
  written m =
      of_int (to_int MessageType.error)
      ∷ of_int (pos m.request_type)
      ∷ of_int m.request_id
      ∷ of_string m.error
      ∷ m.details
      ∷ []

  -- The message as JSON: an array of the type and the members, in the order of the declaration.
  pub to_json_lem : (m : ErrorMessage) → to_json null m ≡ ok (array (written m))
  unfolding to_json
  to_json_lem m = simp push_laws

  -- Reading what was written gives the message back, with null details read as an empty object.
  pub from_json-to_json :
      (m : ErrorMessage)
      → m.request_type < 2 ^ 32
      → IsInt32 m.request_id
      → (do j ← to_json null m; from_json j)
        ≡ ok (record m { details = details_or_object m.details })
  unfolding from_json
  from_json-to_json m k h = rw (
    to_json_lem m,
    member_lem get_uint (written m) 1 (of_int (pos m.request_type)) m.request_type refl
        (get_uint-of_int m.request_type k),
    member_lem get_int (written m) 2 (of_int m.request_id) m.request_id refl
        (get_int-of_int m.request_id h),
    member_lem get_string (written m) 3 (of_string m.error) m.error refl
        (get_string-of_string m.error),
    member_lem (λ (d : Json). some d) (written m) 4 m.details m.details refl refl,
  )
