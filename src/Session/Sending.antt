-- ===== src/Session/Sending.antt =====
-- session.ipp, `SendMessage`: its guards.
use barbarossa.Common.{◌≡◌, refl, ◌≢◌, Bool, true, false, arith}
use barbarossa.Errors.{no_transport_error, no_session_error}
use barbarossa.Errors.Outcome.{throws}
use barbarossa.Json.{JsonLib}
use barbarossa.Message.{Message}
use barbarossa.Transport.{Transport}
use barbarossa.Session.{Session, transmit, send_message}

module _ ⦃J : JsonLib⦄ {T : Type 0} ⦃tr : Transport T⦄ where
  -- What a send needs.
  pub record CanSend (s : Session T) (established : Bool) : Type 0 where
    pub attached : s.attached ≡ true
    pub connected : tr.is_connected s.transport ≡ true
    pub joined : established ≡ true → s.session_id ≢ 0

  pub send_message_passes :
      (m : Message) (b : Bool) (s : Session T) → CanSend s b → send_message m b s ≡ transmit m s
  unfolding send_message
  send_message_passes m true s h = ground (arith, h.attached, h.connected, h.joined refl)
  send_message_passes m false s h = ground (arith, h.attached, h.connected)

  -- A message goes to the transport exactly where the session has a transport, the transport is
  -- connected and, if an established session is asked for, the session has an id. Otherwise the call
  -- throws the error of the first of these that fails, and changes nothing.
  pub send_message_guards :
      (m : Message) (b : Bool) (s : Session T)
      → (CanSend s b → send_message m b s ≡ transmit m s)
        × (s.attached ≡ false → send_message m b s ≡ (throws no_transport_error, s))
        × (tr.is_connected s.transport ≡ false
            → send_message m b s ≡ (throws no_transport_error, s))
        × (s.attached ≡ true
            → tr.is_connected s.transport ≡ true
            → b ≡ true
            → s.session_id ≡ 0
            → send_message m b s ≡ (throws no_session_error, s))
  unfolding send_message
  send_message_guards m b s =
      (send_message_passes m b s, λ h. ground arith, λ h. ground arith, λ h k e z. ground arith)
