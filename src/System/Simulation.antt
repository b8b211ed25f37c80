-- ===== src/System/Simulation.antt =====
-- The running program is a session over a transport that changes by itself.
use barbarossa.Common.{
  String, Bool, Bool-cases, Option-cases, ◌&&◌, true, false, ◌≡◌, ◌≢◌, ◌⊎◌, inl, inr, refl, ap,
  arith,
}
use barbarossa.Errors.Outcome.{uncaught, Outcome, ok, terminates, undefined}
use barbarossa.Json.{JsonLib}
use barbarossa.Message.{Message, from_fields}
use barbarossa.Transport.{client_thread}
use barbarossa.Session.{Session, on_attach, on_detach}
use barbarossa.Session.Handlers.{on_message}
use barbarossa.Session.Run.{
  Event, attach, transport_becomes, detach, join, register, listen, leaves, receive, run_next,
  heartbeat_turn, step, Reach,
}
use barbarossa.Session.Run
use barbarossa.WebSocket.{WebSocket}
use barbarossa.WebSocket.Receive
use barbarossa.WebSocket.Receive.{on_client_message, recv_message, from_array}
use barbarossa.WebSocket.Delivery.{from_array_lem}
use barbarossa.Main.{web_transport, session_web, session_handler, on_signal}
use barbarossa.System.{
  SystemEvent, system_step, SystemReach, here, next, opened, closed, failed, received, attaching,
  detaching, connecting, listening, signalled, joining, registering, context_runs, heartbeat_moves,
}

module _ ⦃J : JsonLib⦄ where
  open J use {Json, parse, elements}

  -- A frame either reaches the session as a message or changes nothing.
  pub received-cases :
      (is_text : Bool) (text : String) (s : Session WebSocket)
      → ((on_client_message is_text text s).1 ≡ s)
        ⊎ ((m : Message) × (on_client_message is_text text s ≡ on_message m s))
  unfolding on_client_message recv_message
  received-cases is_text text s = elim (Option-cases (parse text)) [
    | inl p ↦ inl (ground arith)
    | inr (j, p) ↦ elim (Option-cases (elements j)) [
      | inl q ↦ inl (ground arith)
      | inr (xs, q) ↦ elim (Bool-cases (is_text && s.transport.has_handler)) [
        | inl b ↦ inr (from_fields xs, ground (arith, from_array_lem xs))
        | inr b ↦ inl (ground arith)
      ]
    ]
  ]

  Goes : Outcome (Unit {0}) → Type 0
  Goes r = (r ≢ terminates) × (r ≢ undefined)

  -- What an outcome of the client's thread says of the handler's.
  handled : (r : Outcome (Unit {0})) → Goes (uncaught r) → Goes r
  unfolding Goes
  handled r g = (λ q. ground (arith, g.0), λ q. ground (arith, g.1))

  carry : {x y : Outcome (Unit {0}) × Session WebSocket} → x ≡ y → Goes x.0 → Goes y.0
  carry p g = rw (← p) g

  same : {s u v : Session WebSocket} → Reach s u → v ≡ u → Reach s v
  same r p = rw p r

  by :
      {s t u : Session WebSocket} (e : Event WebSocket)
      → Reach s t
      → Goes (step e t).0
      → u ≡ (step e t).1
      → Reach s u
  unfolding Goes
  by e r (a, b) p = Run.next e r a b p

  -- A change that the transport makes by itself.
  moved :
      {s t u : Session WebSocket} (w : WebSocket)
      → Reach s t
      → u ≡ record t { transport = w }
      → Reach s u
  unfolding Goes step
  moved w r p = by (transport_becomes w) r (λ q. cc, λ q. cc) p

  attach-cases :
      (s : Session WebSocket)
      → let linked = record s { transport = record s.transport { has_handler = true } } in
        ((Receive.attach s).1 ≡ s) ⊎ (Receive.attach s ≡ on_attach linked.transport linked)
  unfolding Receive.attach on_attach
  attach-cases s = ground arith

  detach-cases :
      (s : Session WebSocket)
      → ((Receive.detach s).1 ≡ s)
        ⊎ ((on_detach "goodbye" s).0 ≡ ok tt)
          × ((Receive.detach s).1 ≡ record (on_detach "goodbye" s).1 {
            transport = record s.transport { has_handler = false };
          })
  unfolding Receive.detach on_detach
  detach-cases s = ground arith

  received-Reach :
      (b : Bool) (text : String) {s t : Session WebSocket}
      → Reach s t
      → Goes (on_client_message b text t).0
      → Reach s (on_client_message b text t).1
  unfolding step
  received-Reach b text {t = t} r g = elim (received-cases b text t) [
    | inl p ↦ same r p
    | inr (m, p) ↦ by (receive m) r (carry p g) (ap (λ x. x.1) p)
  ]

  attach-Reach :
      {s t : Session WebSocket}
      → Reach s t
      → Goes (Receive.attach t).0
      → Reach s (Receive.attach t).1
  unfolding step
  attach-Reach {t = t} r g =
      let w = record t.transport { has_handler = true } in
      elim (attach-cases t) [
        | inl p ↦ same r p
        | inr p ↦ by (attach w) (moved w r refl) (carry p g) (ap (λ x. x.1) p)
      ]

  detach-Reach : {s t : Session WebSocket} → Reach s t → Reach s (Receive.detach t).1
  unfolding step Goes
  detach-Reach {t = t} r = elim (detach-cases t) [
    | inl p ↦ same r p
    | inr (o, p) ↦ moved _ (by (detach "goodbye") r (λ q. cc, λ q. cc) refl) p
  ]

  step-Reach :
      (e : SystemEvent) {s t : Session WebSocket}
      → Reach s t
      → Goes (system_step e t).0
      → Reach s (system_step e t).1
  unfolding system_step step on_signal
  step-Reach opened r g = moved _ r refl
  step-Reach closed r g = moved _ r refl
  step-Reach failed r g = moved _ r refl
  step-Reach connecting r g = moved _ r refl
  step-Reach (received b text) r g = received-Reach b text r (handled _ g)
  step-Reach attaching r g = attach-Reach r g
  step-Reach detaching r g = detach-Reach r
  step-Reach listening r g = by listen r g refl
  step-Reach signalled r g = by (leaves client_thread) r (handled _ g) refl
  step-Reach (joining realm) r g = by (join realm) r g refl
  step-Reach (registering name f) r g = by (register name f) r g refl
  step-Reach (context_runs alive) r g = by (run_next alive) r (handled _ g) refl
  step-Reach (heartbeat_moves b) r g = by (heartbeat_turn b) r g refl

  pub SystemReach-Reach : {s u : Session WebSocket} → SystemReach s u → Reach s u
  unfolding Goes
  SystemReach-Reach here = Run.here
  SystemReach-Reach (next e r a b p) = rw p (step-Reach e (SystemReach-Reach r) (a, b))
