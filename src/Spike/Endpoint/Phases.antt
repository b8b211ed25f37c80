-- ===== src/Spike/Endpoint/Phases.antt =====
-- How the state of the endpoint changes.
use barbarossa.Common.{ℕ, ◌≡◌, refl, ◌⊎◌, inl, inr, ◌↔◌, String, arith}
use barbarossa.Errors.Outcome.{Outcome, ok, ◌>>=◌}
use barbarossa.MessageType.{MessageType, to_ℕ}
use barbarossa.Json.{JsonLib}
use barbarossa.Protocol.{parse_message, get_message_type}
use barbarossa.Spike.Endpoint.Running.{
  EndpointEvent, opens, closes, fails, turns, receives, happens,
}
use barbarossa.Spike.Endpoint.{
  Endpoint, greeted, registered, disconnected, finishes, on_open, on_close, on_fail, on_message,
  round,
}

module _ ⦃J : JsonLib⦄ where
  -- The type of a text, read as `OnMessage` does.
  abbrev pub type_of : String → Outcome ℕ
  type_of text = do m ← parse_message text; r ← get_message_type m; ok r.0

  round_registered : (e : Endpoint) → (round e).1.state ≡ registered → e.state ≡ registered
  unfolding round
  round_registered e h = ground arith

  on_message_registered :
      (text : String) (e : Endpoint)
      → (on_message text e).1.state ≡ registered
      → (e.state ≡ registered)
        ⊎ ((e.state ≡ greeted) × (type_of text ≡ ok (to_ℕ MessageType.welcome)))
  unfolding on_message
  on_message_registered text e h = ground arith

  -- The state REGISTERED is entered in one way: from GREETED, by a text that is a WELCOME.
  pub enters_registered :
      (v : EndpointEvent) (e : Endpoint)
      → (happens v e).1.state ≡ registered
      → (e.state ≡ registered)
        ⊎ ((e.state ≡ greeted)
            × (text : String) × (v ≡ receives text)
            × (type_of text ≡ ok (to_ℕ MessageType.welcome)))
  unfolding happens on_open on_close on_fail
  enters_registered opens e h = cc
  enters_registered closes e h = cc
  enters_registered fails e h = cc
  enters_registered turns e h = inl (round_registered e h)
  enters_registered (receives text) e h = elim (on_message_registered text e h) [
    | inl r ↦ inl r
    | inr (g, t) ↦ inr (g, text, refl, t)
  ]

  -- The loop of `Handler` ends without an error exactly in the state DISCONNECTED.
  pub round-finishes_iff : (e : Endpoint) → ((round e).0 ≡ ok finishes) ↔ (e.state ≡ disconnected)
  unfolding round
  round-finishes_iff e = (λ h. ground arith, λ h. ground arith)
