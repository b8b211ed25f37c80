-- ===== src/Protocol/Typed.antt =====
-- protocol.hpp: the details of the messages as values of a type of the caller's, and `operator==`.
use barbarossa.Common.{◌≡◌, refl, ◌∙◌, ap, Bool, true, false, arith, eq_iff, int_eq_refl}
use barbarossa.Errors.Outcome.{Outcome, ok, ◌>>=◌}
use barbarossa.Json.{JsonLib}
use barbarossa.Protocol.{details_or_object}
use barbarossa.Protocol.Codec.{
  AnyMessage, hello, welcome, abort, ping, pong, error, encode, decode_like, IsInRange, normal,
  decode-encode,
}
use barbarossa.Protocol.Hello
use barbarossa.Protocol.Welcome
use barbarossa.Protocol.Abort
use barbarossa.Protocol.Ping
use barbarossa.Protocol.Pong
use barbarossa.Protocol.Error

module _ ⦃J : JsonLib⦄ where
  open J use {Json, null, object, is_null, is_null-null, equals, equals-object_null}

  abbrev pub details_of : AnyMessage → Json
  details_of (hello m) = m.details
  details_of (welcome m) = m.details
  details_of (abort m) = m.details
  details_of (ping m) = m.details
  details_of (pong m) = m.details
  details_of (error m) = m.details

  -- `a == b`, for two messages of one class.
  abbrev pub same : AnyMessage → AnyMessage → Bool
  same (hello a) (hello b) = Hello.same a b
  same (welcome a) (welcome b) = Welcome.same a b
  same (abort a) (abort b) = Abort.same a b
  same (ping a) (ping b) = Ping.same a b
  same (pong a) (pong b) = Pong.same a b
  same (error a) (error b) = Error.same a b
  same _ _ = false

  same-normal :
      (m : AnyMessage)
      → same (normal m) m ≡ equals (details_or_object (details_of m)) (details_of m)
  unfolding Hello.same Welcome.same Abort.same Ping.same Pong.same Error.same
  same-normal (hello m) = ground (arith, eq_iff m.realm m.realm)
  same-normal (welcome m) = ground (arith, int_eq_refl m.session_id)
  same-normal (abort m) = ground (arith, eq_iff m.reason m.reason)
  same-normal (ping m) = refl
  same-normal (pong m) = refl
  same-normal (error m) = ground (arith, int_eq_refl m.request_id, eq_iff m.error m.error)

  details_or_object-IsObject : (j : Json) → is_null j ≡ false → details_or_object j ≡ j
  unfolding details_or_object
  details_or_object-IsObject j h = rw h refl

  details_or_object_null : (j : Json) → j ≡ null → details_or_object j ≡ object
  unfolding details_or_object
  details_or_object_null j h = rw (h, is_null-null) refl

  -- A message whose ids are in range, written and read as its class, compares equal to the message that was
  -- written if its details are not null and compare equal to themselves; if its details are null, it does
  -- not, since they are read as an empty object.
  pub same_after_reading :
      (m : AnyMessage)
      → IsInRange m
      → (r : AnyMessage) × ((encode m >>= decode_like m) ≡ ok r)
        × (is_null (details_of m) ≡ false
            → equals (details_of m) (details_of m) ≡ true
            → same r m ≡ true)
        × (details_of m ≡ null → same r m ≡ false)
  same_after_reading m h = (
    normal m,
    decode-encode m h,
    λ n e. same-normal m ∙ ap (λ j. equals j (details_of m)) (details_or_object-IsObject _ n) ∙ e,
    λ e.
        same-normal m
        ∙ ap (λ j. equals j (details_of m)) (details_or_object_null _ e)
        ∙ ap (equals object) e
        ∙ equals-object_null,
  )

module _ ⦃J : JsonLib⦄ {A : Type 0} where
  open J use {Json, null, is_null}

  -- A message with the members of `m`, from its constructor for details of the type `A`.
  abbrev pub remake : (A → Outcome Json) → AnyMessage → A → Outcome AnyMessage
  remake convert (hello m) x = do r ← Hello.create_from convert m.realm x; ok (hello r)
  remake convert (welcome m) x = do r ← Welcome.create_from convert m.session_id x; ok (welcome r)
  remake convert (abort m) x = do r ← Abort.create_from convert m.reason x; ok (abort r)
  remake convert (ping m) x = do r ← Ping.create_from convert x; ok (ping r)
  remake convert (pong m) x = do r ← Pong.create_from convert x; ok (pong r)
  remake convert (error m) x = do
    r ← Error.create_from convert m.request_type m.request_id m.error x
    ok (error r)

  -- `m.set_details(x)`
  abbrev pub with_details : (A → Outcome Json) → A → AnyMessage → Outcome AnyMessage
  with_details convert x (hello m) = do r ← Hello.set_details_from convert x m; ok (hello r)
  with_details convert x (welcome m) = do r ← Welcome.set_details_from convert x m; ok (welcome r)
  with_details convert x (abort m) = do r ← Abort.set_details_from convert x m; ok (abort r)
  with_details convert x (ping m) = do r ← Ping.set_details_from convert x m; ok (ping r)
  with_details convert x (pong m) = do r ← Pong.set_details_from convert x m; ok (pong r)
  with_details convert x (error m) = do r ← Error.set_details_from convert x m; ok (error r)

  -- `m.details<A>()`
  abbrev pub read_details : (Json → Outcome A) → AnyMessage → Outcome A
  read_details get (hello m) = Hello.details_as get m
  read_details get (welcome m) = Welcome.details_as get m
  read_details get (abort m) = Abort.details_as get m
  read_details get (ping m) = Ping.details_as get m
  read_details get (pong m) = Pong.details_as get m
  read_details get (error m) = Error.details_as get m

  with_details-remake :
      (convert : A → Outcome Json) (x : A) (m : AnyMessage)
      → with_details convert x m ≡ remake convert m x
  unfolding Hello.create_from Hello.set_details_from Welcome.create_from Welcome.set_details_from
      Abort.create_from Abort.set_details_from Ping.create_from Ping.set_details_from
      Pong.create_from Pong.set_details_from Error.create_from Error.set_details_from
  with_details-remake convert x (hello m) = refl
  with_details-remake convert x (welcome m) = refl
  with_details-remake convert x (abort m) = refl
  with_details-remake convert x (ping m) = refl
  with_details-remake convert x (pong m) = refl
  with_details-remake convert x (error m) = refl

  reads :
      (convert : A → Outcome Json) (get : Json → Outcome A) (x : A) (j : Json) (m : AnyMessage)
      → IsInRange m
      → convert x ≡ ok j
      → details_or_object j ≡ j
      → get j ≡ ok x
      → (do r ← remake convert m x; q ← (encode r >>= decode_like m); read_details get q) ≡ ok x
  unfolding Hello.create_from Hello.create_with Hello.details_as Welcome.create_from
      Welcome.create_with Welcome.details_as Abort.create_from Abort.create_with Abort.details_as
      Ping.create_from Ping.create_with Ping.details_as Pong.create_from Pong.create_with
      Pong.details_as Error.create_from Error.create_with Error.details_as
  reads convert get x j (hello m) h e n g =
      let r = hello (record m { details = j }) in
      let p : (encode r >>= decode_like (hello m)) ≡ ok (normal r) = decode-encode r h in
      rw e (rw (p, n) g)
  reads convert get x j (welcome m) h e n g =
      let r = welcome (record m { details = j }) in
      let p : (encode r >>= decode_like (welcome m)) ≡ ok (normal r) = decode-encode r h in
      rw e (rw (p, n) g)
  reads convert get x j (abort m) h e n g =
      let r = abort (record m { details = j }) in
      let p : (encode r >>= decode_like (abort m)) ≡ ok (normal r) = decode-encode r h in
      rw e (rw (p, n) g)
  reads convert get x j (ping m) h e n g =
      let r = ping (record m { details = j }) in
      let p : (encode r >>= decode_like (ping m)) ≡ ok (normal r) = decode-encode r h in
      rw e (rw (p, n) g)
  reads convert get x j (pong m) h e n g =
      let r = pong (record m { details = j }) in
      let p : (encode r >>= decode_like (pong m)) ≡ ok (normal r) = decode-encode r h in
      rw e (rw (p, n) g)
  reads convert get x j (error m) h e n g =
      let r = error (record m { details = j }) in
      let p : (encode r >>= decode_like (error m)) ≡ ok (normal r) = decode-encode r h in
      rw e (rw (p, n) g)

  -- Details of a type `A` that is written as JSON and read from it again, put into a message with ids in range
  -- by its constructor or by `set_details`, are what `details<A>()` gives of the message that is written and
  -- read as its class.
  pub read_details-remake :
      (convert : A → Outcome Json) (get : Json → Outcome A) (x : A) (j : Json) (m : AnyMessage)
      → IsInRange m
      → convert x ≡ ok j
      → is_null j ≡ false
      → get j ≡ ok x
      → ((do r ← remake convert m x; q ← (encode r >>= decode_like m); read_details get q) ≡ ok x)
        × (with_details convert x m ≡ remake convert m x)
  read_details-remake convert get x j m h e n g = (
    reads convert get x j m h e (details_or_object-IsObject j n) g,
    with_details-remake convert x m,
  )
