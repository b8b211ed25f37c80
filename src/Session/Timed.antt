-- ===== src/Session/Timed.antt =====
-- session.ipp, `HearbeatController` with the lengths of its two waits, in seconds.
use barbarossa.Common.{◌+◌, List, [], ◌∷◌, ℕ, Bool, true, false, ◌||◌, ◌==◌, if◌then◌else◌}
use Prim.Native.Nat.{◌-◌}
use barbarossa.Errors.Outcome.{ok}
use barbarossa.Errors.Exec.{Action, ◌>>◌}
use barbarossa.Promise.{is_ready}
use barbarossa.Json.{JsonLib}
use barbarossa.Transport.{Transport}
use barbarossa.Session.{
  Session, HeartbeatThread, not_started, sleeping, awaiting, expired, finished,
}
use barbarossa.Session.Run.{Event, step, beat}

-- The wait for `stop_signal_` and the wait for the pong.
abbrev pub ping_wait : ℕ
ping_wait = 20

abbrev pub pong_wait : ℕ
pong_wait = 4

-- How long a wait is that begins.
abbrev pub wait_of : HeartbeatThread → ℕ
wait_of sleeping = ping_wait
wait_of awaiting = pong_wait
wait_of _ = 0

abbrev same_place : HeartbeatThread → HeartbeatThread → Bool
same_place not_started not_started = true
same_place sleeping sleeping = true
same_place awaiting awaiting = true
same_place expired expired = true
same_place finished finished = true
same_place _ _ = false

abbrev pub due_at : HeartbeatThread → Bool → ℕ → Bool
due_at sleeping answered left = left == 0
due_at awaiting answered left = answered || (left == 0)
due_at expired answered left = true
due_at _ answered left = false

module _ ⦃J : JsonLib⦄ where
  -- `left` is the number of seconds that are left of the thread's wait.
  pub record Timed (T : Type 0) : Type 0 where
    pub session : Session T
    pub left : ℕ

  -- What happens at a moment: a second passes, the thread runs, or an event of the session.
  pub data Moment (T : Type 0) : Type 0 where
    second thread_turn : Moment T
    occurs : Event T → Moment T

  module _ {T : Type 0} where
    -- A wait begins where the thread has come to it.
    abbrev pub rearm : HeartbeatThread → ℕ → Session T → Timed T
    rearm old left s = record {
      session = s;
      left = if same_place old s.heartbeat then left else wait_of s.heartbeat;
    }

    -- Whether the thread's wait is over: its time is up, or the pong is there.
    abbrev pub is_due : Timed T → Bool
    is_due t = due_at t.session.heartbeat (is_ready t.session.pong_received.shared) t.left

    unfoldable pub moves : Action (Timed T)
    moves t =
        let (r, s) = beat false t.session.heartbeat t.session in
        (r, rearm t.session.heartbeat t.left s)

    -- The thread goes on where its wait is over. It is not woken before.
    unfoldable pub thread_runs : Action (Timed T)
    unfolding moves
    thread_runs t = if is_due t then moves t else (ok tt, t)

    abbrev pub one_less : Timed T → Timed T
    one_less t = record t { left = t.left - 1 }

    -- A second passes. Where a wait ends with it the thread goes on at once: in a round it comes through at
    -- most three places.
    unfoldable pub elapse : Action (Timed T)
    unfolding thread_runs
    elapse t = (thread_runs >> thread_runs >> thread_runs) (one_less t)

    -- The number of seconds that pass at a moment, and in all.
    abbrev pub passing : Moment T → ℕ
    passing second = 1
    passing _ = 0

    abbrev pub seconds : List (Moment T) → ℕ
    seconds [] = 0
    seconds (m ∷ ms) = passing m + seconds ms

module _ ⦃J : JsonLib⦄ {T : Type 0} ⦃tr : Transport T⦄ where
  unfoldable pub timed_step : Moment T → Action (Timed T)
  unfolding thread_runs elapse
  timed_step second t = elapse t
  timed_step thread_turn t = thread_runs t
  timed_step (occurs e) t = let (r, s) = step e t.session in (r, rearm t.session.heartbeat t.left s)

  unfoldable pub timed_run : List (Moment T) → Timed T → Timed T
  timed_run [] t = t
  timed_run (m ∷ ms) t = timed_run ms (timed_step m t).1
