-- ===== src/Session/Timely.antt =====
-- session.ipp, `HearbeatController` with its waits: a session whose pings are answered in time.
use barbarossa.Common.{
  ℕ, zero, suc, ◌+◌, ◌<◌, ◌≤◌, ◌≡◌, ◌≢◌, refl, ap, ◌∙◌, List, [], ◌∷◌, ◌++◌, length, arith, true,
  false,
}
use Prim.Native.Nat.{◌-◌}
use barbarossa.Errors.Outcome.{ok}
use barbarossa.Promise.{fresh, is_ready}
use barbarossa.Json.{JsonLib}
use barbarossa.Message.{Message, field_as}
use barbarossa.MessageType.{pong, to_int}
use barbarossa.Transport.{Transport}
use barbarossa.Session.Messages.{ping_fields}
use barbarossa.Session.{Session, sleeping, awaiting}
use barbarossa.Session.Sending.{CanSend}
use barbarossa.Session.Handlers.{on_message, process_pong}
use barbarossa.Session.Run.{run_next, receive, step}
use barbarossa.Session.Heartbeat.{heartbeat_check}
use barbarossa.Session.Pulse.{pinged, heartbeat_begin-pinged, run_posted-pinged}
use barbarossa.MessageType.Codes.{from_int-to_int}
use barbarossa.Session.Dispatch.{on_message-dispatch}
use barbarossa.Session.Handlers.{dispatch}
use barbarossa.Session.Timed.{
  Timed, Moment, second, thread_turn, occurs, ping_wait, pong_wait, due_at, is_due, one_less,
  thread_runs, elapse, timed_step, timed_run, rearm, moves,
}
use barbarossa.Session.Waiting.{timed_run-append}

-- Every delay is shorter than the wait for the pong.
abbrev pub AllInTime : List ℕ → Type 0
AllInTime [] = Unit {0}
AllInTime (d ∷ ds) = (d < pong_wait) × AllInTime ds

module _ ⦃J : JsonLib⦄ {T : Type 0} where
  -- A second in which no wait ends.
  elapse-idle : (t : Timed T) → is_due (one_less t) ≡ false → elapse t ≡ (ok tt, one_less t)
  unfolding elapse thread_runs
  elapse-idle t h = rw (h, h, h) refl

  -- The second in which the wait for the next ping ends.
  elapse-pinged :
      (s : Session T)
      → s.heartbeat ≡ sleeping
      → s.pong_received ≡ fresh
      → elapse (record { session = s; left = 1 })
        ≡ (ok tt, record { session = pinged s; left = pong_wait })
  unfolding elapse thread_runs moves
  elapse-pinged s h p =
      rw
        (h, heartbeat_begin-pinged (record s { heartbeat = sleeping }) (ap (λ q. q.retrieved) p), p)
        refl

  -- So many seconds, and then other moments.
  abbrev pub pause : ℕ → List (Moment T) → List (Moment T)
  pause zero ms = ms
  pause (suc n) ms = second ∷ pause n ms

  -- A wait that does not end before its time is up.
  abbrev Waits : Session T → Type 0
  Waits s = (l : ℕ) → 1 ≤ l → due_at s.heartbeat (is_ready s.pong_received.shared) l ≡ false

module _ ⦃J : JsonLib⦄ {T : Type 0} ⦃tr : Transport T⦄ where
  open J use {get_int}

  -- What a session is between two rounds of its heartbeat.
  pub record IsResting (s : Session T) : Type 0 where
    pub sleeps : s.heartbeat ≡ sleeping
    pub no_pong : s.pong_received ≡ fresh
    pub idle : s.posted ≡ []

  on_message-pong :
      (m : Message) (s : Session T)
      → field_as get_int 0 m ≡ ok (to_int pong)
      → on_message m s ≡ process_pong m s
  unfolding dispatch
  on_message-pong m s h = rw (on_message-dispatch m (to_int pong) s h, from_int-to_int pong) refl

  -- The thread where the pong is there.
  thread_runs-answered :
      (m : Message) (s : Session T) (t : T) (left : ℕ)
      → IsResting s
      → let asked = record (pinged s) { transport = t; posted = [] } in
        thread_runs (record { session = (process_pong m asked).1; left = left })
        ≡ (ok tt, record { session = record s { transport = t }; left = ping_wait })
  unfolding thread_runs moves process_pong heartbeat_check
  thread_runs-answered m s t left r = ground (arith, r.sleeps, r.no_pong, r.idle)

  timed_run-pause :
      (k : ℕ) (ms : List (Moment T)) (s : Session T) (left : ℕ)
      → Waits s
      → 1 ≤ left
      → timed_run (pause k ms) (record { session = s; left = left + k })
        ≡ timed_run ms (record { session = s; left = left })
  unfolding timed_run timed_step
  timed_run-pause zero ms s left w l = let e : left + 0 ≡ left = omega arith in rw e refl
  timed_run-pause (suc k) ms s left w l =
      let e : left + suc k - 1 ≡ left + k = omega arith in
      let idle = elapse-idle (record { session = s; left = left + suc k }) (w _ (omega arith)) in
      ap (λ r. timed_run (pause k ms) r.1) idle
      ∙ ap (λ n. timed_run (pause k ms) (record { session = s; left = n })) e
      ∙ timed_run-pause k ms s left w l

  -- A round: the wait for the ping, the handler that sends it, `d` seconds, and the message `m`.
  abbrev pub answer_after : Message → ℕ → List (Moment T)
  answer_after m d = pause d (occurs (receive m) ∷ thread_turn ∷ [])

  abbrev pub timely_round : Message → ℕ → List (Moment T)
  timely_round m d = pause (ping_wait - 1) (second ∷ occurs (run_next true) ∷ answer_after m d)

  abbrev pub timely_rounds : Message → List ℕ → List (Moment T)
  timely_rounds m [] = []
  timely_rounds m (d ∷ ds) = timely_round m d ++ timely_rounds m ds

  -- From the ping that went out to the next wait.
  answer_after_lem :
      (m : Message) (d : ℕ) (s : Session T) (t : T)
      → field_as get_int 0 m ≡ ok (to_int pong)
      → IsResting s
      → d < pong_wait
      → let asked = record (pinged s) { transport = t; posted = [] } in
        timed_run (answer_after m d) (record { session = asked; left = pong_wait })
        ≡ record { session = record s { transport = t }; left = ping_wait }
  unfolding timed_run timed_step step process_pong
  answer_after_lem m d s t h r l =
      let asked = record (pinged s) { transport = t; posted = [] } in
      let e : pong_wait ≡ pong_wait - d + d = omega arith in
      let waited =
        timed_run-pause d (occurs (receive m) ∷ thread_turn ∷ []) asked (pong_wait - d)
          (λ n p. ground (arith, r.no_pong)) (omega arith) in
      ap (λ k. timed_run (answer_after m d) (record { session = asked; left = k })) e
      ∙ waited
      ∙ ap (λ q. (thread_runs (rearm awaiting (pong_wait - d) q.1)).1) (on_message-pong m asked h)
      ∙ ap (λ q. q.1) (thread_runs-answered m s t (pong_wait - d) r)

  timely_round_lem :
      (m : Message) (d : ℕ) (s : Session T) (t : T)
      → field_as get_int 0 m ≡ ok (to_int pong)
      → IsResting s
      → CanSend s true
      → tr.send_message ping_fields s.transport ≡ (ok tt, t)
      → d < pong_wait
      → timed_run (timely_round m d) (record { session = s; left = ping_wait })
        ≡ record { session = record s { transport = t }; left = ping_wait }
  unfolding timed_run timed_step step
  timely_round_lem m d s t h r can sent l =
      let after = occurs (run_next true) ∷ answer_after m d in
      timed_run-pause (ping_wait - 1) (second ∷ after) s 1
        (λ n p. ground (arith, r.sleeps, r.no_pong)) (omega arith)
      ∙ ap (λ q. timed_run after q.1) (elapse-pinged s r.sleeps r.no_pong)
      ∙ ap (λ q. timed_run (answer_after m d) (rearm awaiting pong_wait q.1))
          (run_posted-pinged s t r.idle can sent)
      ∙ answer_after_lem m d s t h r l

  pub timely_rounds_lem :
      (ds : List ℕ) (m : Message) (s : Session T) (w : ℕ → T)
      → AllInTime ds
      → field_as get_int 0 m ≡ ok (to_int pong)
      → IsResting s
      → s.attached ≡ true
      → s.session_id ≢ 0
      → ((k : ℕ) → tr.is_connected (w k) ≡ true)
      → ((k : ℕ) → tr.send_message ping_fields (w k) ≡ (ok tt, w (suc k)))
      → s.transport ≡ w 0
      → timed_run (timely_rounds m ds) (record { session = s; left = ping_wait })
        ≡ record { session = record s { transport = w (length ds) }; left = ping_wait }
  unfolding timed_run
  timely_rounds_lem [] m s w q h r a z c sends p = rw (← p) refl
  timely_rounds_lem (d ∷ ds) m s w (q, qs) h r a z c sends p =
      let can : CanSend s true = record { attached = a; connected = rw p (c 0); joined = λ e. z } in
      timed_run-append (timely_round m d) (timely_rounds m ds)
        (record { session = s; left = ping_wait })
      ∙ ap (timed_run (timely_rounds m ds))
          (timely_round_lem m d s (w 1) h r can (rw p (sends 0)) q)
      ∙ timely_rounds_lem ds m (record s { transport = w 1 }) (λ k. w (suc k)) qs h
          (record { sleeps = r.sleeps; no_pong = r.no_pong; idle = r.idle }) a z (λ k. c (suc k))
          (λ k. sends (suc k)) refl
