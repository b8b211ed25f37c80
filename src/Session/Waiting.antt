-- ===== src/Session/Waiting.antt =====
-- session.ipp, `Join` with the length of its wait.
use barbarossa.Common.{
  ◌++◌, ◌<◌, ap, Bool-cases, ℕ, ◌+◌, ◌≤◌, ◌≡◌, ◌⊎◌, inl, inr, refl, true, false, ◌||◌, ◌==◌,
  if◌then◌else◌, List, [], ◌∷◌, arith,
}
use barbarossa.Session.Timed.{passing, Timed, Moment, timed_step, seconds, timed_run}
use barbarossa.Session.Join.{joined_result, join_end}
use Prim.Native.Nat.{◌-◌}
use barbarossa.Errors.{timeout_error}
use barbarossa.Errors.Outcome.{Outcome, throws}
use barbarossa.Promise.{is_ready, Shared, not_ready, value, failure}
use barbarossa.Json.{JsonLib}
use barbarossa.Transport.{Transport}
use barbarossa.Session.{Session}
use barbarossa.Session.Settled.{
  Stays-same, starts-Settled, keeping-Settled, process_welcome-Settled,
}
use barbarossa.Session.Elapsing.{timed_step-keeps}

-- The wait for the answer to a join.
abbrev pub join_timeout : ℕ
join_timeout = 16

-- The thread that called `Join`, in its wait with the seconds that are left or returned with an outcome.
pub data Caller : Type 0 where
  waiting : ℕ → Caller
  returned : Outcome ℕ → Caller

joined_result_unready : (a : Shared ℕ) → is_ready a ≡ false → joined_result a ≡ throws timeout_error
joined_result_unready not_ready h = refl
joined_result_unready (value x) h = cc
joined_result_unready (failure e) h = cc

abbrev pub spends : ℕ → Caller → Caller
spends k (waiting n) = waiting (n - k)
spends k (returned r) = returned r

module _ ⦃J : JsonLib⦄ {T : Type 0} where
  -- The wait ends where the promise is ready or no time is left.
  unfoldable pub looks : Caller → Session T → Caller
  looks (waiting n) s =
      if is_ready s.joined.shared || (n == 0) then returned (join_end s) else waiting n
  looks (returned r) s = returned r

module _ ⦃J : JsonLib⦄ {T : Type 0} ⦃tr : Transport T⦄ where
  -- The caller through moments of the session. It goes on at once where its wait ends.
  unfoldable pub join_wait : List (Moment T) → Caller → Timed T → Caller
  unfolding looks
  join_wait [] c t = c
  join_wait (m ∷ ms) c t =
      let u = (timed_step m t).1 in join_wait ms (looks (spends (passing m) c) u.session) u

  joined_stays :
      (m : Moment T) (t : Timed T)
      → is_ready t.session.joined.shared ≡ true
      → (timed_step m t).1.session.joined.shared ≡ t.session.joined.shared
  joined_stays m t h =
      let a = t.session.joined.shared in
      let b = t.session.leaved.shared in
      let kept =
        timed_step-keeps (keeping-Settled a b) (λ w s v. process_welcome-Settled a b w s v) m t
          (starts-Settled t.session) in
      Stays-same a _ h kept.joined_stays

  -- Where the caller is with `n` seconds gone.
  pub data Waited (n : ℕ) : Caller → Session T → Type 0 where
    waits :
        {s : Session T} (left : ℕ)
        → is_ready s.joined.shared ≡ false
        → 1 ≤ left
        → left + n ≡ join_timeout
        → Waited n (waiting left) s
    timed_out : {s : Session T} → join_timeout ≤ n → Waited n (returned (throws timeout_error)) s
    answered :
        {s : Session T} (r : Outcome ℕ)
        → is_ready s.joined.shared ≡ true
        → r ≡ join_end s
        → Waited n (returned r) s

  looks-Waited :
      (n left : ℕ) (s : Session T) → left + n ≡ join_timeout → Waited n (looks (waiting left) s) s
  unfolding looks join_end
  looks-Waited n left s h = elim (Bool-cases (is_ready s.joined.shared)) [
    | inl e ↦ rw e (answered _ e refl)
    | inr e ↦ elim (Bool-cases (left == 0)) [
      | inl z ↦ rw (e, z, joined_result_unready s.joined.shared e) (timed_out (ground arith))
      | inr z ↦ rw (e, z) (waits left e (ground arith) h)
    ]
  ]

  moment-Waited :
      (m : Moment T) (n : ℕ) (c : Caller) (t : Timed T)
      → Waited n c t.session
      → Waited
          (passing m + n)
          (looks (spends (passing m) c) (timed_step m t).1.session)
          (timed_step m t).1.session
  unfolding looks join_end
  moment-Waited m n _ t (waits left e l h) =
      looks-Waited (passing m + n) (left - passing m) _ (ground arith)
  moment-Waited m n c t (timed_out h) = timed_out (ground arith)
  moment-Waited m n c t (answered r a q) =
      let same = joined_stays m t a in answered r (rw same a) (rw same q)

  join_wait-Waited :
      (ms : List (Moment T)) (n : ℕ) (c : Caller) (t : Timed T)
      → Waited n c t.session
      → Waited (seconds ms + n) (join_wait ms c t) (timed_run ms t).session
  unfolding join_wait timed_run
  join_wait-Waited [] n c t v = let e : 0 + n ≡ n = omega arith in rw e v
  join_wait-Waited (m ∷ ms) n c t v =
      let e : passing m + seconds ms + n ≡ seconds ms + (passing m + n) = omega arith in
      rw e (join_wait-Waited ms (passing m + n) _ (timed_step m t).1 (moment-Waited m n c t v))

  join_wait-returned :
      (ms : List (Moment T)) (r : Outcome ℕ) (t : Timed T)
      → join_wait ms (returned r) t ≡ returned r
  unfolding join_wait looks
  join_wait-returned [] r t = refl
  join_wait-returned (m ∷ ms) r t = join_wait-returned ms r (timed_step m t).1

  join_wait-append :
      (ms ns : List (Moment T)) (c : Caller) (t : Timed T)
      → join_wait (ms ++ ns) c t ≡ join_wait ns (join_wait ms c t) (timed_run ms t)
  unfolding join_wait timed_run
  join_wait-append [] ns c t = refl
  join_wait-append (m ∷ ms) ns c t = join_wait-append ms ns _ (timed_step m t).1

  pub timed_run-append :
      (ms ns : List (Moment T)) (t : Timed T)
      → timed_run (ms ++ ns) t ≡ timed_run ns (timed_run ms t)
  unfolding timed_run
  timed_run-append [] ns t = refl
  timed_run-append (m ∷ ms) ns t = timed_run-append ms ns (timed_step m t).1

  -- What the caller has got when all is over.
  abbrev Ended : ℕ → Caller → Session T → Type 0
  Ended n c u =
      (c ≡ returned (throws timeout_error))
      ⊎ ((is_ready u.joined.shared ≡ true) × (c ≡ returned (join_end u)))

  Waited-Ended :
      (n : ℕ) (c : Caller) (u : Session T) → join_timeout ≤ n → Waited n c u → Ended n c u
  Waited-Ended n _ u h (waits left e l q) = ground arith
  Waited-Ended n _ u h (timed_out q) = inl refl
  Waited-Ended n _ u h (answered r a q) = inr (a, ap returned q)

  settled_before :
      (n : ℕ) (c : Caller) (s : Session T)
      → n < join_timeout
      → Waited n c s
      → ((is_ready s.joined.shared ≡ true) × (c ≡ returned (join_end s)))
        ⊎ (is_ready s.joined.shared ≡ false)
  settled_before n _ s h (waits left e l q) = inr e
  settled_before n _ s h (timed_out q) = ground arith
  settled_before n _ s h (answered r a q) = inl (a, ap returned q)

  -- `Join` returns within the 16 seconds of its wait. What `joined_` holds at any moment before they are
  -- over, if it is ready then, is what the call gives. Where it is not ready the call ends in a timeout, or
  -- with what it holds in the end. Whatever else happens, this holds; the caller goes on at once where its
  -- wait ends.
  pub join_wait_lem :
      (before after : List (Moment T)) (t : Timed T)
      → seconds before < join_timeout
      → join_timeout ≤ seconds before + seconds after
      → let caller = join_wait (before ++ after) (looks (waiting join_timeout) t.session) t in
        let between = (timed_run before t).session in
        let last = (timed_run (before ++ after) t).session in
        ((is_ready between.joined.shared ≡ true) × (caller ≡ returned (join_end between)))
        ⊎ ((is_ready between.joined.shared ≡ false)
            × ((caller ≡ returned (throws timeout_error))
                ⊎ ((is_ready last.joined.shared ≡ true) × (caller ≡ returned (join_end last)))))
  join_wait_lem before after t h l =
      let first =
        join_wait-Waited before 0 _ t (looks-Waited 0 join_timeout t.session (omega arith)) in
      let all = join_wait-Waited after (seconds before + 0) _ (timed_run before t) first in
      rw
        (
          join_wait-append before after (looks (waiting join_timeout) t.session) t,
          timed_run-append before after t,
        )
        (elim (settled_before (seconds before + 0) _ _ (omega arith) first) [
          | inl (a, e) ↦ inl (a, rw e (join_wait-returned after _ (timed_run before t)))
          | inr e ↦ inr (e, Waited-Ended _ _ _ (omega arith) all)
        ])
