-- ===== src/Protocol/Reading.antt =====
-- What the `from_json` functions of protocol.hpp make of any value.
use barbarossa.Common.{
  ◌≡◌, inl, inr, refl, Option, none, some, List, [], ◌∷◌, ◌++◌, length, get_elem?-append,
  get_elem?-length, Option-cases,
}
use barbarossa.Errors.Outcome.{Outcome, ok, throws, undefined, or_throw, ◌>>=◌}
use barbarossa.Json.{JsonLib, bad_type}
use barbarossa.Protocol.{member, details_or_object}
use barbarossa.Protocol.Hello
use barbarossa.Protocol.Hello.{HelloMessage}
use barbarossa.Protocol.Welcome
use barbarossa.Protocol.Welcome.{WelcomeMessage}
use barbarossa.Protocol.Abort
use barbarossa.Protocol.Abort.{AbortMessage}
use barbarossa.Protocol.Ping
use barbarossa.Protocol.Ping.{PingMessage}
use barbarossa.Protocol.Pong
use barbarossa.Protocol.Pong.{PongMessage}
use barbarossa.Protocol.Error
use barbarossa.Protocol.Error.{ErrorMessage}
use barbarossa.Protocol.Codec.{AnyMessage, hello, welcome, abort, ping, pong, error, decode_like}
use mathlib.Core.List.{append-nil}

module _ ⦃J : JsonLib⦄ where
  open J use {
    Json, array, elements, get_int, get_uint, get_string, index-array, index-array_outside,
    index-other,
  }

  -- The next value of a list, converted: a missing one is undefined behaviour, one of another type a type
  -- error.
  take_as : {A B : Type 0} → (Json → Option A) → List Json → (A → List Json → Outcome B) → Outcome B
  take_as get [] f = undefined
  take_as get (v ∷ vs) f = do a ← or_throw bad_type (get v); f a vs

  abbrev any_json : Json → Option Json
  any_json d = some d

  -- What is behind the code of a message, read as the members of a class, in their order.
  pub read_hello : List Json → Outcome HelloMessage
  unfolding take_as
  read_hello xs = take_as get_string xs λ realm ys.
      take_as any_json ys λ d _. ok (record { realm = realm; details = details_or_object d })

  unfoldable pub read_welcome : List Json → Outcome WelcomeMessage
  unfolding take_as
  read_welcome xs = take_as get_int xs λ id ys.
      take_as any_json ys λ d _. ok (record { session_id = id; details = details_or_object d })

  pub read_abort : List Json → Outcome AbortMessage
  unfolding take_as
  read_abort xs = take_as get_string xs λ reason ys.
      take_as any_json ys λ d _. ok (record { reason = reason; details = details_or_object d })

  pub read_ping : List Json → Outcome PingMessage
  unfolding take_as
  read_ping xs = take_as any_json xs λ d _. ok (record { details = details_or_object d })

  pub read_pong : List Json → Outcome PongMessage
  unfolding take_as
  read_pong xs = take_as any_json xs λ d _. ok (record { details = details_or_object d })

  pub read_error : List Json → Outcome ErrorMessage
  unfolding take_as
  read_error xs = take_as get_uint xs λ code ys. take_as get_int ys λ id zs.
      take_as get_string zs λ text ws. take_as any_json ws λ d _. ok (record {
        request_type = code;
        request_id = id;
        error = text;
        details = details_or_object d;
      })

  -- A member behind `ys`.
  member-take_as :
      {A B : Type 0} (get : Json → Option A) (ys xs : List Json) (f : A → Outcome B)
      (g : A → List Json → Outcome B)
      → ((v : Json) (vs : List Json) (a : A) → xs ≡ v ∷ vs → f a ≡ g a vs)
      → (member get (length ys) (array (ys ++ xs)) >>= f) ≡ take_as get xs g
  unfolding member take_as
  member-take_as get ys [] f g h =
      rw (append-nil, index-array_outside ys (length ys) (get_elem?-length ys))
  member-take_as get ys (v ∷ vs) f g h = elim (Option-cases (get v)) [
    | inl e ↦ rw (index-array (ys ++ v ∷ vs) (length ys) v (get_elem?-append ys vs v), e)
    | inr (a, e) ↦
        rw (index-array (ys ++ v ∷ vs) (length ys) v (get_elem?-append ys vs v), e) (h v vs a refl)
  ]

  hello-read : (c : Json) (xs : List Json) → Hello.from_json (array (c ∷ xs)) ≡ read_hello xs
  unfolding Hello.from_json read_hello
  hello-read c xs =
      member-take_as get_string (c ∷ []) xs _ _
        λ v vs a e. rw e (member-take_as any_json (c ∷ v ∷ []) vs _ _ λ w ws d q. refl)

  welcome-read : (c : Json) (xs : List Json) → Welcome.from_json (array (c ∷ xs)) ≡ read_welcome xs
  unfolding Welcome.from_json read_welcome
  welcome-read c xs =
      member-take_as get_int (c ∷ []) xs _ _
        λ v vs a e. rw e (member-take_as any_json (c ∷ v ∷ []) vs _ _ λ w ws d q. refl)

  abort-read : (c : Json) (xs : List Json) → Abort.from_json (array (c ∷ xs)) ≡ read_abort xs
  unfolding Abort.from_json read_abort
  abort-read c xs =
      member-take_as get_string (c ∷ []) xs _ _
        λ v vs a e. rw e (member-take_as any_json (c ∷ v ∷ []) vs _ _ λ w ws d q. refl)

  ping-read : (c : Json) (xs : List Json) → Ping.from_json (array (c ∷ xs)) ≡ read_ping xs
  unfolding Ping.from_json read_ping
  ping-read c xs = member-take_as any_json (c ∷ []) xs _ _ λ v vs d e. refl

  pong-read : (c : Json) (xs : List Json) → Pong.from_json (array (c ∷ xs)) ≡ read_pong xs
  unfolding Pong.from_json read_pong
  pong-read c xs = member-take_as any_json (c ∷ []) xs _ _ λ v vs d e. refl

  error-read : (c : Json) (xs : List Json) → Error.from_json (array (c ∷ xs)) ≡ read_error xs
  unfolding Error.from_json read_error
  error-read c xs = member-take_as get_uint (c ∷ []) xs _ _ λ v vs a e. rw e (
      member-take_as get_int (c ∷ v ∷ []) vs _ _ λ w ws b q. rw q (
        member-take_as get_string (c ∷ v ∷ w ∷ []) ws _ _
          λ x zs t r. rw r (member-take_as any_json (c ∷ v ∷ w ∷ x ∷ []) zs _ _ λ y us d o. refl)))

  -- The members behind the code, read as the class of the message.
  abbrev pub read_like : AnyMessage → List Json → Outcome AnyMessage
  read_like (hello m) xs = do m ← read_hello xs; ok (hello m)
  read_like (welcome m) xs = do m ← read_welcome xs; ok (welcome m)
  read_like (abort m) xs = do m ← read_abort xs; ok (abort m)
  read_like (ping m) xs = do m ← read_ping xs; ok (ping m)
  read_like (pong m) xs = do m ← read_pong xs; ok (pong m)
  read_like (error m) xs = do m ← read_error xs; ok (error m)

  decode_like-read :
      (k : AnyMessage) (c : Json) (xs : List Json) → decode_like k (array (c ∷ xs)) ≡ read_like k xs
  decode_like-read (hello m) c xs = rw (hello-read c xs)
  decode_like-read (welcome m) c xs = rw (welcome-read c xs)
  decode_like-read (abort m) c xs = rw (abort-read c xs)
  decode_like-read (ping m) c xs = rw (ping-read c xs)
  decode_like-read (pong m) c xs = rw (pong-read c xs)
  decode_like-read (error m) c xs = rw (error-read c xs)

  decode_like-empty : (k : AnyMessage) → decode_like k (array []) ≡ undefined
  unfolding Hello.from_json Welcome.from_json Abort.from_json Ping.from_json Pong.from_json
      Error.from_json member
  decode_like-empty (hello m) = rw (index-array_outside [] 1 refl)
  decode_like-empty (welcome m) = rw (index-array_outside [] 1 refl)
  decode_like-empty (abort m) = rw (index-array_outside [] 1 refl)
  decode_like-empty (ping m) = rw (index-array_outside [] 1 refl)
  decode_like-empty (pong m) = rw (index-array_outside [] 1 refl)
  decode_like-empty (error m) = rw (index-array_outside [] 1 refl)

  decode_like-other :
      (k : AnyMessage) (j : Json) → elements j ≡ none → decode_like k j ≡ throws bad_type
  unfolding Hello.from_json Welcome.from_json Abort.from_json Ping.from_json Pong.from_json
      Error.from_json member
  decode_like-other (hello m) j e = rw (index-other j 1 e)
  decode_like-other (welcome m) j e = rw (index-other j 1 e)
  decode_like-other (abort m) j e = rw (index-other j 1 e)
  decode_like-other (ping m) j e = rw (index-other j 1 e)
  decode_like-other (pong m) j e = rw (index-other j 1 e)
  decode_like-other (error m) j e = rw (index-other j 1 e)

  -- How a value is read as a message of any class: what is no array is a type error, an empty array is
  -- undefined behaviour, and from another array the members are taken one after the other behind the code,
  -- which is not looked at, where a member that is missing is undefined behaviour and one of another type a
  -- type error.
  pub decode_like_lem :
      (k : AnyMessage) (c : Json) (xs : List Json) (j : Json)
      → elements j ≡ none
      → (decode_like k (array (c ∷ xs)) ≡ read_like k xs)
        × (decode_like k (array []) ≡ undefined)
        × (decode_like k j ≡ throws bad_type)
  decode_like_lem k c xs j e =
      (decode_like-read k c xs, decode_like-empty k, decode_like-other k j e)
