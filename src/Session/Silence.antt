-- ===== src/Session/Silence.antt =====
-- session.ipp: how long a silent peer goes unnoticed.
use barbarossa.Session.Elapsing.{elapse-keeps}
use barbarossa.Session.Timed.{
  seconds, timed_run, rearm, is_due, Timed, Moment, second, thread_turn, occurs, thread_runs,
  elapse, timed_step, ping_wait, pong_wait,
}
use barbarossa.Common.{
  List, [], ◌∷◌, ◌==◌, Bool-cases, ap, ℕ, ◌+◌, ◌≤◌, ◌≡◌, ◌≢◌, inl, inr, refl, true, false, none,
  arith,
}
use barbarossa.Session.Quiet.{Ends, Silent, IsQuiet, step-Silent}
use barbarossa.Session.Settled.{beat-ends, step-ends}
use barbarossa.Session.Pulse.{heartbeat_begin-pinged}
use barbarossa.Promise.{not_ready, fresh}
use barbarossa.Json.{JsonLib}
use barbarossa.Transport.{Transport}
use barbarossa.Session.{Session, HeartbeatThread, sleeping, awaiting, listen_end}
use barbarossa.Session.Heartbeat.{heartbeat_check, heartbeat_expire}
use barbarossa.Session.Run.{Event}

module _ ⦃J : JsonLib⦄ {T : Type 0} ⦃tr : Transport T⦄ where
  -- After `n` seconds of silence: the session has noticed, or its heartbeat is still in one of its waits.
  pub data Silence (n : ℕ) (t : Timed T) : Type 0 where
    noticed : Ends t.session → Silence n t
    sleeps :
        t.session.pong_received ≡ fresh
        → t.session.heartbeat ≡ sleeping
        → 1 ≤ t.left
        → t.left + n ≤ ping_wait
        → Silence n t
    waits :
        t.session.pong_received ≡ record { shared = not_ready; retrieved = true }
        → t.session.heartbeat ≡ awaiting
        → 1 ≤ t.left
        → t.left + n ≤ ping_wait + pong_wait
        → Silence n t

  thread_runs-Ends : (t : Timed T) → Ends t.session → Ends (thread_runs t).1.session
  unfolding thread_runs
  thread_runs-Ends t v = let kept = beat-ends false t.session v in ground arith

  begins-Silence :
      (n : ℕ) (t : Timed T)
      → t.session.pong_received ≡ fresh
      → t.session.heartbeat ≡ sleeping
      → t.left ≡ 0
      → n ≤ ping_wait
      → Silence n (thread_runs t).1
  unfolding thread_runs
  begins-Silence n t p h l m =
      rw
        (
          h,
          l,
          heartbeat_begin-pinged (record t.session { heartbeat = sleeping })
              (ap (λ q. q.retrieved) p),
        )
        (waits (rw p refl) refl (ground arith) (ground arith))

  wait-Ends :
      (t : Timed T)
      → t.session.pong_received ≡ record { shared = not_ready; retrieved = true }
      → t.session.heartbeat ≡ awaiting
      → t.left ≡ 1
      → Ends (elapse t).1.session
  unfolding elapse thread_runs heartbeat_check heartbeat_expire
  wait-Ends t p h l = ground arith

  thread_runs-Silence : (n : ℕ) (t : Timed T) → Silence n t → Silence n (thread_runs t).1
  unfolding thread_runs
  thread_runs-Silence n t (noticed v) = noticed (thread_runs-Ends t v)
  thread_runs-Silence n t (sleeps p h l m) =
      let e : is_due t ≡ false = ground arith in rw e (sleeps p h l m)
  thread_runs-Silence n t (waits p h l m) =
      let e : is_due t ≡ false = ground arith in rw e (waits p h l m)

  elapse-Silence : (n : ℕ) (t : Timed T) → Silence n t → Silence (n + 1) (elapse t).1
  elapse-Silence n t (noticed v) =
      noticed (elapse-keeps (λ u. Ends u.session) t (thread_runs-Ends _ v) thread_runs-Ends)
  elapse-Silence n t (sleeps p h l m) = elim (Bool-cases (t.left == 1)) [
    | inl e ↦
        elapse-keeps (Silence (n + 1)) t
          (begins-Silence (n + 1) _ p h (ground arith) (ground arith)) (thread_runs-Silence (n + 1))
    | inr e ↦
        elapse-keeps (Silence (n + 1)) t
          (thread_runs-Silence (n + 1) _ (sleeps p h (ground arith) (ground arith)))
          (thread_runs-Silence (n + 1))
  ]
  elapse-Silence n t (waits p h l m) = elim (Bool-cases (t.left == 1)) [
    | inl e ↦ noticed (wait-Ends t p h (ground arith))
    | inr e ↦
        elapse-keeps (Silence (n + 1)) t
          (thread_runs-Silence (n + 1) _ (waits p h (ground arith) (ground arith)))
          (thread_runs-Silence (n + 1))
  ]

  -- A moment in which no pong comes.
  pub data IsQuietMoment : Moment T → Type 0 where
    ticking : IsQuietMoment second
    turning : IsQuietMoment thread_turn
    quiet : {e : Event T} → IsQuiet e → IsQuietMoment (occurs e)

  sleeping-Silence :
      (n left : ℕ) (old : HeartbeatThread) (s : Session T)
      → Silent sleeping false s
      → old ≡ sleeping
      → 1 ≤ left
      → left + n ≤ ping_wait
      → Silence n (rearm old left s)
  sleeping-Silence n left old s (inl v) o l m = noticed v
  sleeping-Silence n left old s (inr (p, h)) o l m = sleeps p h (rw (o, h) l) (rw (o, h) m)

  awaiting-Silence :
      (n left : ℕ) (old : HeartbeatThread) (s : Session T)
      → Silent awaiting true s
      → old ≡ awaiting
      → 1 ≤ left
      → left + n ≤ ping_wait + pong_wait
      → Silence n (rearm old left s)
  awaiting-Silence n left old s (inl v) o l m = noticed v
  awaiting-Silence n left old s (inr (p, h)) o l m = waits p h (rw (o, h) l) (rw (o, h) m)

  occurs-Silence :
      (n : ℕ) (e : Event T) (t : Timed T)
      → IsQuiet e
      → Silence n t
      → Silence n (timed_step (occurs e) t).1
  unfolding timed_step
  occurs-Silence n e t q (noticed v) = noticed (step-ends e t.session v)
  occurs-Silence n e t q (sleeps p h l m) =
      let kept = step-Silent sleeping false e t.session (λ p. cc) q (inr (p, h)) in
      sleeping-Silence n t.left _ _ kept h l m
  occurs-Silence n e t q (waits p h l m) =
      let kept = step-Silent awaiting true e t.session (λ p. cc) q (inr (p, h)) in
      awaiting-Silence n t.left _ _ kept h l m

  abbrev pub AllQuiet : List (Moment T) → Type 0
  AllQuiet [] = Unit {0}
  AllQuiet (m ∷ ms) = IsQuietMoment m × AllQuiet ms

  timed_run-Silence :
      (ms : List (Moment T)) (n : ℕ) (t : Timed T)
      → AllQuiet ms
      → Silence n t
      → Silence (seconds ms + n) (timed_run ms t)
  unfolding timed_run timed_step
  timed_run-Silence [] n t q v = let e : 0 + n ≡ n = omega arith in rw e v
  timed_run-Silence (second ∷ ms) n t (q, qs) v =
      let kept = timed_run-Silence ms (n + 1) (elapse t).1 qs (elapse-Silence n t v) in
      let e : 1 + seconds ms + n ≡ seconds ms + (n + 1) = omega arith in rw e kept
  timed_run-Silence (thread_turn ∷ ms) n t (q, qs) v =
      let e : 0 + seconds ms + n ≡ seconds ms + n = omega arith in
      rw e (timed_run-Silence ms n _ qs (thread_runs-Silence n t v))
  timed_run-Silence (occurs e ∷ ms) n t (quiet q, qs) v =
      let z : 0 + seconds ms + n ≡ seconds ms + n = omega arith in
      rw z (timed_run-Silence ms n _ qs (occurs-Silence n e t q v))

  Silence-Ends : (n : ℕ) (t : Timed T) → ping_wait + pong_wait ≤ n → Silence n t → Ends t.session
  Silence-Ends n t h (noticed v) = v
  Silence-Ends n t h (sleeps p e l m) = ground arith
  Silence-Ends n t h (waits p e l m) = ground arith

  listen_end-some : (s : Session T) → Ends s → listen_end s ≢ none
  unfolding listen_end
  listen_end-some s h = λ e. ground arith

  pub silence_noticed :
      (ms : List (Moment T)) (t : Timed T)
      → t.session.heartbeat ≡ sleeping
      → t.session.pong_received ≡ fresh
      → 1 ≤ t.left
      → t.left ≤ ping_wait
      → AllQuiet ms
      → ping_wait + pong_wait ≤ seconds ms
      → listen_end (timed_run ms t).session ≢ none
  silence_noticed ms t h p l m q n =
      let ends =
        Silence-Ends (seconds ms + 0) _ (omega arith)
          (timed_run-Silence ms 0 t q (sleeps p h l (omega arith))) in
      listen_end-some (timed_run ms t).session ends
