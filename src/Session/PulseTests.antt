-- ===== src/Session/PulseTests.antt =====
-- The theorems on the heartbeat at concrete sessions.
use barbarossa.Common.{ℕ, zero, suc, List, arith, ◌≡◌, refl, pos, true, false, some, [], ◌∷◌, ◌++◌}
use barbarossa.Session.Timely.{timely_rounds, timely_rounds_lem, AllInTime}
use barbarossa.Session.Timed.{timed_run}
use barbarossa.Errors.{timeout_error}
use barbarossa.Errors.Outcome.{ok, throws, terminates}
use barbarossa.Promise.{not_ready, value}
use barbarossa.Session.Destroy.{destroy}
use barbarossa.Session.Destroying.{placed, destroy_lem}
use barbarossa.Json.Sample.{num, obj, no_members, sample_json}
use barbarossa.Message.{Message, from_fields, field_as}
use barbarossa.MessageType.{pong, to_int}
use barbarossa.Session.{Session, not_started, sleeping, awaiting, finished, listen_end}
use barbarossa.Session.Messages.{ping_fields}
use barbarossa.Session.Handlers.{process_pong}
use barbarossa.Session.Heartbeat.{heartbeat_begin, heartbeat_check, heartbeat_expire, heartbeat_end}
use barbarossa.Session.Pulse.{late_pong_terminates, silent_round, silent_round_after_leave}
use barbarossa.Session.Sample.{Wire, wire, joined_session}

abbrev pong_message : Message
pong_message = from_fields (num (pos 5) ∷ obj no_members ∷ [])

abbrev left_session : Session Wire
left_session = record joined_session { leaved = record { shared = value true; retrieved = true } }

silent_after_leave : (heartbeat_end (heartbeat_begin false left_session).1).0 ≡ terminates
silent_after_leave = silent_round_after_leave left_session refl refl

-- The peer is gone while the heartbeat waits for a pong.
abbrev cut_session : Session Wire
cut_session = record joined_session {
  transport = record { up = false; sent = [] };
  heartbeat = awaiting;
  pong_received = record { shared = not_ready; retrieved = true };
}

late_pong_terminates_example :
    let checked = heartbeat_check cut_session in
    let late = process_pong pong_message checked.1 in
    (checked.0 ≡ ok tt) × (late.0 ≡ ok tt) × ((heartbeat_expire late.1).0 ≡ terminates)
late_pong_terminates_example = late_pong_terminates pong_message cut_session refl

-- The transport after a number of pings.
abbrev pings : ℕ → List Message
pings zero = []
pings (suc k) = pings k ++ ping_fields ∷ []

abbrev wire_after : ℕ → Wire
wire_after k = record { up = true; sent = pings k }

pong_code : field_as sample_json.get_int 0 pong_message ≡ ok (to_int pong)
unfolding field_as
pong_code = refl

silent_round_ends :
    let ended = heartbeat_end (heartbeat_begin false joined_session).1 in
    (ended.0 ≡ ok tt)
    × (ended.1.heartbeat ≡ finished)
    × (listen_end ended.1 ≡ some (throws timeout_error))
    × (destroy false ended.1 ≡ (ok tt, ended.1))
silent_round_ends = silent_round joined_session refl refl

destroy_example :
    let idle = placed not_started not_ready not_ready joined_session in
    let over = placed finished not_ready not_ready joined_session in
    let asleep = placed sleeping not_ready not_ready joined_session in
    let unanswered = placed awaiting not_ready not_ready joined_session in
    (destroy false idle ≡ (ok tt, idle))
    × (destroy false over ≡ (ok tt, over))
    × ((destroy false asleep).0 ≡ terminates)
    × (destroy true asleep ≡ (ok tt, over))
    × ((destroy false (placed awaiting not_ready (value true) joined_session)).0 ≡ terminates)
    × ((destroy false (placed awaiting (value true) not_ready joined_session)).0 ≡ terminates)
    × ((destroy false unanswered).0 ≡ ok tt)
    × (listen_end (destroy false unanswered).1 ≡ some (throws timeout_error))
destroy_example = destroy_lem joined_session false not_ready not_ready

-- Answers after no second, after three and after one.
abbrev delays : List ℕ
delays = 0 ∷ 3 ∷ 1 ∷ []

delays-AllInTime : AllInTime delays
delays-AllInTime = (omega arith, (omega arith, (omega arith, tt)))

timely_rounds_example :
    timed_run (timely_rounds pong_message delays) (record { session = joined_session; left = 20 })
    ≡ record { session = record joined_session { transport = wire_after 3 }; left = 20 }
timely_rounds_example =
    timely_rounds_lem delays pong_message joined_session wire_after delays-AllInTime pong_code
      (record { sleeps = refl; no_pong = refl; idle = refl }) refl (λ q. ground arith) (λ k. refl)
      (λ k. refl) refl
