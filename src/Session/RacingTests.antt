-- ===== src/Session/RacingTests.antt =====
-- The theorem on racing threads at a session that answers a call while `main` works on it.
use barbarossa.Common.{arith, ◌≡◌, true, refl}
use barbarossa.Errors.Outcome.{ok, undefined}
use barbarossa.Errors.Exec.{Action, pure}
use barbarossa.Json.Sample.{sample_json}
use barbarossa.Session.State.{closed}
use barbarossa.Session.{
  Session, on_detach, send_message, transmit, ensure_state, register_operation, Operation,
}
use barbarossa.Session.Messages.{ping_fields}
use barbarossa.Session.Sending.{CanSend}
use barbarossa.Session.Racing.{LeavesSending, send_amid, send_amid_lem}
use barbarossa.Session.Sample.{Wire, wire, joined_session}

abbrev echo : Operation
echo arguments = ok arguments

abbrev registers : Action (Session Wire)
registers = register_operation "echo" echo

abbrev closes : Action (Session Wire)
closes = ensure_state closed

abbrev waits : Action (Session Wire)
waits = pure tt

abbrev detaches : Action (Session Wire)
detaches = on_detach "goodbye"

registers-LeavesSending : LeavesSending true registers
unfolding register_operation
registers-LeavesSending = record {
  returns = λ s. refl;
  can = λ s c. record { attached = c.attached; connected = c.connected; joined = c.joined };
}

closes-LeavesSending : LeavesSending true closes
unfolding ensure_state
closes-LeavesSending = record {
  returns = λ s. refl;
  can = λ s c. record { attached = c.attached; connected = c.connected; joined = c.joined };
}

joined_session-CanSend : CanSend joined_session true
joined_session-CanSend = record { attached = refl; connected = refl; joined = λ e. omega arith }

send_amid_example :
    (send_amid waits waits waits ping_fields true joined_session
      ≡ send_message ping_fields true joined_session)
    × (send_amid registers closes registers ping_fields true joined_session
        ≡ transmit ping_fields (registers (closes (registers joined_session).1).1).1)
    × ((send_amid detaches waits waits ping_fields true joined_session).0 ≡ undefined)
    × ((send_amid waits detaches waits ping_fields true joined_session).0 ≡ undefined)
    × ((send_amid waits waits detaches ping_fields true joined_session).0 ≡ undefined)
send_amid_example =
    send_amid_lem registers closes registers "goodbye" ping_fields true joined_session
      registers-LeavesSending closes-LeavesSending registers-LeavesSending joined_session-CanSend
