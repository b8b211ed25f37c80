-- ===== src/Session/Racing.antt =====
-- session.ipp, `SendMessage` with what other threads do between its tests: it reads `transport_` three times
-- and holds no lock. Each reading is a step of its own here.
use barbarossa.Common.{String, Bool, true, false, not, ◌≡◌, refl, ◌&&◌, ◌==◌, if◌then◌else◌, arith}
use barbarossa.Errors.{no_transport_error, no_session_error}
use barbarossa.Errors.Outcome.{ok, throws, undefined}
use barbarossa.Errors.Exec.{Action, pure, ◌>>◌}
use barbarossa.Json.{JsonLib}
use barbarossa.Message.{Message}
use barbarossa.Transport.{Transport}
use barbarossa.Session.{Session, on_detach, send_message, transmit}
use barbarossa.Session.Sending.{CanSend}

module _ ⦃J : JsonLib⦄ {T : Type 0} ⦃tr : Transport T⦄ where
  -- `if (!transport_)`
  tests_transport : Action (Session T)
  tests_transport s = if s.attached then (ok tt, s) else (throws no_transport_error, s)

  -- `if (!transport_->IsConnected())`
  tests_connected : Action (Session T)
  tests_connected s =
      if not s.attached
      then (undefined, s)
      else if tr.is_connected s.transport
      then (ok tt, s)
      else (throws no_transport_error, s)

  -- `if (session_established && !session_id_)`
  tests_session : Bool → Action (Session T)
  tests_session established s =
      if established && (s.session_id == 0) then (throws no_session_error, s) else (ok tt, s)

  -- `transport_->SendMessage(std::move(message))`
  uses_transport : Message → Action (Session T)
  uses_transport m s = if s.attached then transmit m s else (undefined, s)

  -- `SendMessage` where other threads do `f`, `g` and `h` between its steps.
  unfoldable pub send_amid :
      Action (Session T)
      → Action (Session T)
      → Action (Session T)
      → Message
      → Bool
      → Action (Session T)
  unfolding tests_transport tests_connected tests_session uses_transport
  send_amid f g h m established = do
    tests_transport
    f
    tests_connected
    g
    tests_session established
    h
    uses_transport m

  -- What other threads do returns and leaves the session as one that can send.
  pub record LeavesSending (established : Bool) (f : Action (Session T)) : Type 0 where
    pub returns : (s : Session T) → (f s).0 ≡ ok tt
    pub can : (s : Session T) → CanSend s established → CanSend (f s).1 established

  send_amid-alone :
      (m : Message) (b : Bool) (s : Session T)
      → send_amid (pure tt) (pure tt) (pure tt) m b s ≡ send_message m b s
  unfolding send_amid send_message
  send_amid-alone m b s = ground arith

  passes-tests_session : (b : Bool) (s : Session T) → CanSend s b → b && (s.session_id == 0) ≡ false
  passes-tests_session true s c = ground (arith, c.joined refl)
  passes-tests_session false s c = refl

  send_amid-kept :
      (f g h : Action (Session T)) (m : Message) (b : Bool) (s : Session T)
      → LeavesSending b f
      → LeavesSending b g
      → LeavesSending b h
      → CanSend s b
      → send_amid f g h m b s ≡ transmit m (h (g (f s).1).1).1
  unfolding send_amid
  send_amid-kept f g h m b s F G H c =
      let c1 = F.can s c in
      let c2 = G.can (f s).1 c1 in
      let c3 = H.can (g (f s).1).1 c2 in
      ground (
        arith,
        c.attached,
        F.returns s,
        c1.attached,
        c1.connected,
        G.returns (f s).1,
        passes-tests_session b (g (f s).1).1 c2,
        H.returns (g (f s).1).1,
        c3.attached,
      )

  send_amid-detached :
      (reason : String) (m : Message) (b : Bool) (s : Session T)
      → CanSend s b
      → let detaches : Action (Session T) = on_detach reason in
        let waits : Action (Session T) = pure tt in
        ((send_amid detaches waits waits m b s).0 ≡ undefined)
        × ((send_amid waits detaches waits m b s).0 ≡ undefined)
        × ((send_amid waits waits detaches m b s).0 ≡ undefined)
  unfolding send_amid on_detach
  send_amid-detached reason m true s c =
      let j = c.joined refl in
      (
        ground (arith, c.attached),
        ground (arith, c.attached, c.connected, j),
        ground (arith, c.attached, c.connected, j),
      )
  send_amid-detached reason m false s c = (
    ground (arith, c.attached),
    ground (arith, c.attached, c.connected),
    ground (arith, c.attached, c.connected),
  )

  -- With nothing in between these are the steps of `SendMessage`. For a session that can send, actions of
  -- other threads that return and leave it so do no harm: the message goes out over the transport as they
  -- left it. But where the transport is detached between two of the steps, as `main` does while the client's
  -- thread may answer a CALL, the next use of the pointer is undefined.
  pub send_amid_lem :
      (f g h : Action (Session T)) (reason : String) (m : Message) (b : Bool) (s : Session T)
      → LeavesSending b f
      → LeavesSending b g
      → LeavesSending b h
      → CanSend s b
      → let waits : Action (Session T) = pure tt in
        let detaches : Action (Session T) = on_detach reason in
        (send_amid waits waits waits m b s ≡ send_message m b s)
        × (send_amid f g h m b s ≡ transmit m (h (g (f s).1).1).1)
        × ((send_amid detaches waits waits m b s).0 ≡ undefined)
        × ((send_amid waits detaches waits m b s).0 ≡ undefined)
        × ((send_amid waits waits detaches m b s).0 ≡ undefined)
  send_amid_lem f g h reason m b s F G H c =
      let (early, between, late) = send_amid-detached reason m b s c in
      (send_amid-alone m b s, send_amid-kept f g h m b s F G H c, early, between, late)
