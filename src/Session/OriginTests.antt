-- ===== src/Session/OriginTests.antt =====
-- The theorems on the life of a session, at one that was attached, joined and welcomed.
use barbarossa.Common.{ℕ, ◌<◌, ◌^◌, ◌≡◌, ◌⊎◌, pos, refl, false, [], ◌∷◌, true, arith}
use barbarossa.Json.Sample.{null, sample_json}
use barbarossa.Session.{Session, initial, on_attach, lookup}
use barbarossa.Session.Messages.{hello_fields}
use barbarossa.Session.Join.{join_end}
use barbarossa.Session.Run.{
  attach, join, run_next, receive, heartbeat_turn, Event, step, Reach, here, Reach-returns,
}
use barbarossa.Session.Welcome.{welcomed}
use barbarossa.Session.Joining.{
  welcome_fields, waiting, join_begin_new, run_posted-joining, on_message-welcome,
}
use barbarossa.Errors.Safe.{Survives}
use barbarossa.Session.Survival.{step-Survives}
use barbarossa.Session.Calls.{call_fields}
use barbarossa.Session.Uses.{SendsOnce, Disposes, step-SendsOnce}
use barbarossa.Session.Origin.{Welcomed, Reach-Welcomed}
use barbarossa.Errors.Outcome.{ok}
use barbarossa.Session.Bounds.{Reach-bound}
use barbarossa.Session.Contract.{Moves}
use barbarossa.Session.Refines.{view, Reach-Moves}
use barbarossa.Session.Sample.{
  Wire, wire, wire_up, attached_session, attached_session-IsNew, attached_session-CanSend,
}

abbrev told : Wire
told = record { up = true; sent = hello_fields "test" ∷ [] }

abbrev welcomed_session : Session Wire
welcomed_session = welcomed 7 (waiting told attached_session)

welcomed-Reach : Reach (initial wire_up) welcomed_session
unfolding step on_attach
welcomed-Reach =
    Reach-returns (receive (welcome_fields 7 null))
      (Reach-returns (run_next true)
        (Reach-returns (join "test") (Reach-returns (attach wire_up) here refl)
          (join_begin_new "test" attached_session attached_session-IsNew))
        (run_posted-joining "test" attached_session told attached_session-IsNew
          attached_session-CanSend refl))
      (on_message-welcome 7 null (waiting told attached_session) (omega arith) refl refl refl)

Reach-Welcomed_example : Welcomed (initial wire_up) welcomed_session 7
unfolding join_end
Reach-Welcomed_example = Reach-Welcomed wire_up 7 welcomed-Reach refl

Reach-Moves_example : Moves (view (initial wire_up)) (view welcomed_session)
Reach-Moves_example = Reach-Moves welcomed-Reach

Reach-bound_example :
    (welcomed_session.session_id < 2 ^ 32)
    × ((id : ℕ) → join_end welcomed_session ≡ ok id → id < 2 ^ 32)
Reach-bound_example = Reach-bound wire_up welcomed-Reach

step-Survives_example : Survives (step (heartbeat_turn false) welcomed_session).0
unfolding lookup
step-Survives_example =
    step-Survives (λ m t e. cc) wire_up (heartbeat_turn false) welcomed-Reach (λ name f j e. cc)
      (λ e. cc) refl (λ e. cc) (λ c e. cc)

-- A CALL of an operation that is not registered.
abbrev reboot : Event Wire
reboot = receive (call_fields (pos 1) "reboot" null)

step-SendsOnce_example :
    SendsOnce welcomed_session (step reboot welcomed_session).1
    ⊎ Disposes reboot welcomed_session (step reboot welcomed_session).1
step-SendsOnce_example = step-SendsOnce reboot welcomed_session
