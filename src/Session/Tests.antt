-- ===== src/Session/Tests.antt =====
-- The theorems on the life of a session at concrete sessions.
use barbarossa.Common.{ℕ, ◌≡◌, refl, true, [], ◌∷◌, arith}
use barbarossa.Errors.{timeout_error}
use barbarossa.Errors.Outcome.{ok, throws}
use barbarossa.Promise.{is_ready}
use barbarossa.Json.Sample.{null, sample_json}
use barbarossa.Transport.{other_thread}
use barbarossa.Session.{Session, sleeping, initial, listen_end, leave, listen_begin}
use barbarossa.Session.State.{established}
use barbarossa.Session.Messages.{hello_fields}
use barbarossa.Session.Handlers.{on_message}
use barbarossa.Session.Join.{join_begin, join_end, run_posted}
use barbarossa.Session.Run.{listen, leaves, step, Reach, here, next}
use barbarossa.Session.Joining.{welcome_fields, join_completes}
use barbarossa.Session.Invariant.{Inv, Reach-Inv}
use barbarossa.Session.Identity.{Reach-session_id}
use barbarossa.Session.Settled.{Reach-results}
use barbarossa.Session.Sample.{
  Wire, joining_session, wire, wire_up, attached_session, joined_session, attached_session-IsNew,
  attached_session-CanSend,
}

join_completes_example :
    let sent = (run_posted true (join_begin "test" attached_session).1).1 in
    let answered = (on_message (welcome_fields 7 null) sent).1 in
    (sent.transport ≡ record { up = true; sent = hello_fields "test" ∷ [] })
    × (join_end sent ≡ throws timeout_error)
    × (join_end answered ≡ ok 7)
    × (answered.state ≡ established)
    × (answered.session_id ≡ 7)
    × (answered.transport ≡ record { up = true; sent = hello_fields "test" ∷ [] })
join_completes_example =
    join_completes "test" 7 null attached_session
      (record { up = true; sent = hello_fields "test" ∷ [] }) (omega arith) attached_session-IsNew
      attached_session-CanSend refl

joined-Reach : Reach joined_session (step (leaves other_thread) joined_session).1
unfolding step leave
joined-Reach = next (leaves other_thread) here (λ e. cc) (λ e. cc) refl

new-Reach : Reach (initial wire_up) (step listen (initial wire_up)).1
unfolding step listen_begin
new-Reach = next listen here (λ e. cc) (λ e. cc) refl

Reach-Inv_example : Inv (step listen (initial wire_up)).1
Reach-Inv_example = Reach-Inv wire_up new-Reach

Reach-results_example :
    let s = joined_session in
    let u = (step (leaves other_thread) joined_session).1 in
    (is_ready s.joined.shared ≡ true → join_end u ≡ join_end s)
    × (is_ready s.leaved.shared ≡ true → listen_end u ≡ listen_end s)
Reach-results_example = Reach-results joined-Reach

-- A session that was welcomed without an id, and is left.
abbrev stuck_session : Session Wire
stuck_session = record joining_session { state = established; heartbeat = sleeping }

stuck-Reach : Reach stuck_session (step (leaves other_thread) stuck_session).1
unfolding step leave
stuck-Reach = next (leaves other_thread) here (λ e. cc) (λ e. cc) refl

Reach-session_id_example :
    let u = (step (leaves other_thread) stuck_session).1 in
    (u.session_id ≡ stuck_session.session_id)
    × ((id : ℕ) → join_end u ≡ ok id → join_end stuck_session ≡ ok id)
Reach-session_id_example = Reach-session_id stuck-Reach (λ e. cc)
