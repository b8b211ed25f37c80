-- ===== src/Session/SilenceTests.antt =====
-- The theorems on the lengths of the waits, at a session that joined just now and sends its ping and at one
-- that waits for its WELCOME.
use barbarossa.Session.Timely.{pause}
use barbarossa.Session.Elapsing.{AllGoOn, timed_run-Reach, GoesOn}
use barbarossa.Session.Timed.{timed_step, timed_run, Timed, Moment, second, thread_turn, occurs}
use barbarossa.Session.Heartbeat.{heartbeat_begin}
use barbarossa.Session.Messages.{ping_message}
use barbarossa.Message.{set_field, sized}
use barbarossa.Session.Run.{step, Reach, receive, run_next}
use barbarossa.Session.Join.{run_posted, run_task, join_end}
use barbarossa.Session.{send_message, listen_end}
use barbarossa.Errors.Outcome.{Outcome, ok, throws}
use barbarossa.Errors.{timeout_error}
use barbarossa.Common.{
  false, ◌≡◌, ◌⊎◌, ◌++◌, ℕ, zero, suc, ◌≢◌, refl, List, [], ◌∷◌, none, true, arith,
}
use barbarossa.Promise.{is_ready}
use barbarossa.Session.Joining.{welcome_fields}
use barbarossa.Session.Waiting.{join_wait, join_wait_lem, looks, waiting, join_timeout, returned}
use barbarossa.Json.Sample.{null, sample_json}
use barbarossa.Session.Sample.{joining_session, Wire, wire, joined_session}
use barbarossa.Session.Quiet.{IsQuiet}
use barbarossa.Session.Silence.{AllQuiet, ticking, turning, quiet, silence_noticed}

-- Twenty seconds, the handler that sends the ping, and four seconds more.
abbrev silent_moments : List (Moment Wire)
silent_moments = pause 20 (occurs (run_next true) ∷ thread_turn ∷ pause 4 [])

run_next-IsQuiet : IsQuiet {T = Wire} (run_next true)
run_next-IsQuiet = record { no_pong = λ m p. cc; no_turn = λ b p. cc }

pause-AllQuiet : (n : ℕ) (ms : List (Moment Wire)) → AllQuiet ms → AllQuiet (pause n ms)
pause-AllQuiet zero ms q = q
pause-AllQuiet (suc n) ms q = (ticking, pause-AllQuiet n ms q)

silent_moments-AllQuiet : AllQuiet silent_moments
silent_moments-AllQuiet =
    pause-AllQuiet 20 (occurs (run_next true) ∷ thread_turn ∷ pause 4 [])
      (quiet run_next-IsQuiet, (turning, pause-AllQuiet 4 [] tt))

abbrev just_joined : Timed Wire
just_joined = record { session = joined_session; left = 20 }

silence_noticed_example : listen_end (timed_run silent_moments just_joined).session ≢ none
silence_noticed_example =
    silence_noticed silent_moments just_joined refl refl (omega arith) (omega arith)
      silent_moments-AllQuiet (omega arith)

-- A WELCOME after a second, and fifteen seconds more.
abbrev welcomed_soon : List (Moment Wire)
welcomed_soon = second ∷ occurs (receive (welcome_fields 7 null)) ∷ []

abbrev asked : Timed Wire
asked = record { session = joining_session; left = 0 }

join_wait_example :
    let caller =
      join_wait
        (welcomed_soon ++ pause 15 [])
        (looks (waiting join_timeout) joining_session)
        asked in
    let between = (timed_run welcomed_soon asked).session in
    let last = (timed_run (welcomed_soon ++ pause 15 []) asked).session in
    ((is_ready between.joined.shared ≡ true) × (caller ≡ returned (join_end between)))
    ⊎ ((is_ready between.joined.shared ≡ false)
        × ((caller ≡ returned (throws timeout_error))
            ⊎ ((is_ready last.joined.shared ≡ true) × (caller ≡ returned (join_end last)))))
join_wait_example = join_wait_lem welcomed_soon (pause 15 []) asked (omega arith) (omega arith)

-- The second in which the wait for the ping ends, the handler that sends it, and a second of the next wait.
abbrev soon_due : Timed Wire
soon_due = record { session = joined_session; left = 1 }

abbrev pinging : List (Moment Wire)
pinging = second ∷ occurs (run_next true) ∷ second ∷ []

returns-GoesOn : (r : Outcome (Unit {0})) → r ≡ ok tt → GoesOn r
returns-GoesOn r h = ((λ e. cc), (λ e. cc))

pinging-AllGoOn : AllGoOn pinging soon_due
unfolding timed_step heartbeat_begin ping_message set_field sized step run_posted run_task
    send_message
pinging-AllGoOn = (returns-GoesOn _ refl, (returns-GoesOn _ refl, (returns-GoesOn _ refl, tt)))

timed_run-Reach_example : Reach joined_session (timed_run pinging soon_due).session
timed_run-Reach_example = timed_run-Reach pinging soon_due pinging-AllGoOn
