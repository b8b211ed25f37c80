-- ===== src/Protocol/Details.antt =====
-- include/barbarossa/protocol_details.hpp: the details of a WELCOME.
use barbarossa.Common.{
  Bool, true, ◌&&◌, ◌↔◌, int_eq, int_eq_iff, str_eq, eq_iff, arith, ℤ, pos, IsInt32, ◌≡◌, ◌∙◌,
  String, Option, some,
}
use barbarossa.Errors.Outcome.{Outcome, ok, or_throw, ◌>>=◌}
use barbarossa.Json.{JsonLib, bad_type}

pub record WelcomeDetails : Type 0 where
  pub session_timeout : ℤ
  pub ping_interval : ℤ
  pub pong_timeout : ℤ
  pub events_topic : String

-- The constructor without arguments.
unfoldable pub create : WelcomeDetails
create = record {
  session_timeout = pos 120;
  ping_interval = pos 104;
  pong_timeout = pos 16;
  events_topic = "";
}

unfoldable create_with : ℤ → ℤ → ℤ → String → WelcomeDetails
create_with session_timeout ping_interval pong_timeout events_topic = record {
  session_timeout = session_timeout;
  ping_interval = ping_interval;
  pong_timeout = pong_timeout;
  events_topic = events_topic;
}

-- `operator==`
unfoldable same : WelcomeDetails → WelcomeDetails → Bool
same a b =
    int_eq a.session_timeout b.session_timeout
    && int_eq a.ping_interval b.ping_interval
    && int_eq a.pong_timeout b.pong_timeout
    && str_eq a.events_topic b.events_topic

-- Two details compare equal exactly if they are the same.
same_iff : (a b : WelcomeDetails) → (same a b ≡ true) ↔ (a ≡ b)
unfolding same
same_iff a b =
    let p = int_eq_iff a.session_timeout b.session_timeout in
    let q = int_eq_iff a.ping_interval b.ping_interval in
    let r = int_eq_iff a.pong_timeout b.pong_timeout in
    let s = eq_iff a.events_topic b.events_topic in
    (λ h. ground (arith, p, q, r, s), λ h. ground (arith, p, q, r, s))

unfoldable pub set_session_timeout : ℤ → WelcomeDetails → WelcomeDetails
set_session_timeout x d = record d { session_timeout = x }

unfoldable pub set_ping_interval : ℤ → WelcomeDetails → WelcomeDetails
set_ping_interval x d = record d { ping_interval = x }

unfoldable pub set_pong_timeout : ℤ → WelcomeDetails → WelcomeDetails
set_pong_timeout x d = record d { pong_timeout = x }

unfoldable pub set_events_topic : String → WelcomeDetails → WelcomeDetails
set_events_topic x d = record d { events_topic = x }

module _ ⦃J : JsonLib⦄ where
  open J use {
    Json, null, object, of_int, of_string, get_int, get_string, get_int-of_int,
    get_string-of_string, set_key, set_key-null, set_key-object, set_key_again, find_key,
    find_key-set_key, at_key, at_key_found,
  }

  unfoldable pub to_json : Json → WelcomeDetails → Outcome Json
  to_json j d = do
    j ← set_key j "session_timeout" (of_int d.session_timeout)
    j ← set_key j "ping_interval" (of_int d.ping_interval)
    j ← set_key j "pong_max_wait_time" (of_int d.pong_timeout)
    set_key j "events_topic" (of_string d.events_topic)

  -- `j.at(key).get<T>()`
  unfoldable pub at : {A : Type 0} → (Json → Option A) → String → Json → Outcome A
  at get k j = do v ← at_key j k; or_throw bad_type (get v)

  unfoldable pub from_json : Json → Outcome WelcomeDetails
  from_json j = do
    session_timeout ← at get_int "session_timeout" j
    ping_interval ← at get_int "ping_interval" j
    pong_timeout ← at get_int "pong_max_wait_time" j
    events_topic ← at get_string "events_topic" j
    ok (record {
      session_timeout = session_timeout;
      ping_interval = ping_interval;
      pong_timeout = pong_timeout;
      events_topic = events_topic;
    })

  at_lem :
      {A : Type 0} (get : Json → Option A) (k : String) (j v : Json) (a : A)
      → find_key j k ≡ some v
      → get v ≡ some a
      → at get k j ≡ ok a
  unfolding at
  at_lem get k j v a e g = rw (at_key_found j k v e, g)

  -- What `to_json` writes to null: four keys with the members.
  record Written (d : WelcomeDetails) (j : Json) : Type 0 where
    session_timeout : find_key j "session_timeout" ≡ some (of_int d.session_timeout)
    ping_interval : find_key j "ping_interval" ≡ some (of_int d.ping_interval)
    pong_timeout : find_key j "pong_max_wait_time" ≡ some (of_int d.pong_timeout)
    events_topic : find_key j "events_topic" ≡ some (of_string d.events_topic)

  written_lem :
      (d : WelcomeDetails) (a b c e : Json)
      → set_key object "session_timeout" (of_int d.session_timeout) ≡ ok a
      → set_key a "ping_interval" (of_int d.ping_interval) ≡ ok b
      → set_key b "pong_max_wait_time" (of_int d.pong_timeout) ≡ ok c
      → set_key c "events_topic" (of_string d.events_topic) ≡ ok e
      → Written d e
  written_lem d a b c e p q r s = record {
    session_timeout =
        find_key-set_key c e _ "session_timeout" _ s
        ∙ find_key-set_key b c _ "session_timeout" _ r
        ∙ find_key-set_key a b _ "session_timeout" _ q
        ∙ find_key-set_key object a _ "session_timeout" _ p;
    ping_interval =
        find_key-set_key c e _ "ping_interval" _ s
        ∙ find_key-set_key b c _ "ping_interval" _ r
        ∙ find_key-set_key a b _ "ping_interval" _ q;
    pong_timeout =
        find_key-set_key c e _ "pong_max_wait_time" _ s
        ∙ find_key-set_key b c _ "pong_max_wait_time" _ r;
    events_topic = find_key-set_key c e _ "events_topic" _ s;
  }

  write : (d : WelcomeDetails) → (j : Json) × (to_json null d ≡ ok j) × Written d j
  unfolding to_json
  write d =
      let (a, p) = set_key-object "session_timeout" (of_int d.session_timeout) in
      let (b, q) =
        set_key_again object a "session_timeout" "ping_interval" (of_int d.session_timeout)
          (of_int d.ping_interval) p in
      let (c, r) =
        set_key_again a b "ping_interval" "pong_max_wait_time" (of_int d.ping_interval)
          (of_int d.pong_timeout) q in
      let (e, s) =
        set_key_again b c "pong_max_wait_time" "events_topic" (of_int d.pong_timeout)
          (of_string d.events_topic) r in
      (e, rw (set_key-null, p, q, r, s), written_lem d a b c e p q r s)

  -- Details with 32-bit numbers, written to a null value and read back, come back as they were; the
  -- timeout for pongs stands under the key pong_max_wait_time.
  pub details_round_trip :
      (d : WelcomeDetails)
      → IsInt32 d.session_timeout
      → IsInt32 d.ping_interval
      → IsInt32 d.pong_timeout
      → (j : Json) × (to_json null d ≡ ok j)
        × (from_json j ≡ ok d)
        × (find_key j "pong_max_wait_time" ≡ some (of_int d.pong_timeout))
  unfolding from_json
  details_round_trip d h k l =
      let (j, e, w) = write d in
      (
        j,
        e,
        rw (
          at_lem get_int "session_timeout" j _ _ w.session_timeout (get_int-of_int _ h),
          at_lem get_int "ping_interval" j _ _ w.ping_interval (get_int-of_int _ k),
          at_lem get_int "pong_max_wait_time" j _ _ w.pong_timeout (get_int-of_int _ l),
          at_lem get_string "events_topic" j _ _ w.events_topic (get_string-of_string _),
        ),
        w.pong_timeout,
      )
