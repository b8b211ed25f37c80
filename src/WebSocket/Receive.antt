-- ===== src/WebSocket/Receive.antt =====
-- websocket_transport.ipp: `Attach`, `Detach`, `OnClientMessage` and `RecvMessage`, which call the handler.
use barbarossa.Common.{
  ℕ, suc, String, Bool, true, false, not, Option, none, some, List, [], ◌∷◌, ◌≡◌, length,
  if◌then◌else◌,
}
use barbarossa.Errors.{logic_error, json_error, parse_error}
use barbarossa.Errors.ErrorMessages
use barbarossa.Errors.Outcome
use barbarossa.Errors.Outcome.{Outcome, ok, throws, or_throw}
use barbarossa.Errors.Exec.{Action, pure, lift, ◌>>=◌, ◌>>◌}
use barbarossa.Json.{JsonLib}
use barbarossa.Message.{Message, sized, set_field}
use barbarossa.Transport.{TransportHandler}
use barbarossa.WebSocket.{WebSocket}

-- A state that holds the transport's: the handler's calls may use the transport.
pub record HasWebSocket (S : Type 0) : Type 0 where
  pub web : S → WebSocket
  pub put : WebSocket → S → S
  pub web-put : (w : WebSocket) (s : S) → web (put w s) ≡ w
  pub put-put : (v w : WebSocket) (s : S) → put v (put w s) ≡ put v s

module _ ⦃J : JsonLib⦄ where
  open J use {Json}

  -- The loop of `RecvMessage` over the array.
  unfoldable pub fill : List Json → ℕ → Message → Outcome Message
  fill [] i m = ok m
  fill (x ∷ xs) i m = Outcome.◌>>=◌ (set_field i x m) λ m'. fill xs (suc i) m'

  unfoldable pub from_array : List Json → Outcome Message
  from_array xs = fill xs 0 (sized (length xs))

module _ ⦃J : JsonLib⦄ {S : Type 0} ⦃h : HasWebSocket S⦄ ⦃th : TransportHandler S⦄ where
  open J use {Json, parse, elements}
  open h use {web, put}

  set_handler : Bool → Action S
  set_handler b s = (ok tt, put (record (web s) { has_handler = b }) s)

  unfoldable pub attach : Action S
  unfolding set_handler
  attach s =
      if (web s).has_handler
      then (throws (logic_error ErrorMessages.transport_handler_already_attached), s)
      else (set_handler true >> th.on_attach) s

  unfoldable pub detach : Action S
  unfolding set_handler
  detach s =
      if not (web s).has_handler
      then (throws (logic_error ErrorMessages.transport_handler_already_detached), s)
      else (th.on_detach "goodbye" >> set_handler false) s

  -- What is no array is dropped.
  deliver : Option (List Json) → Action S
  deliver none = pure tt
  deliver (some xs) = do m ← lift (from_array xs); th.on_message m

  decode : String → Action S
  unfolding deliver
  decode payload = do
    j ← lift (or_throw (json_error parse_error) (parse payload))
    deliver (elements j)

  unfoldable pub recv_message : String → Action S
  unfolding decode
  recv_message payload s = if not (web s).has_handler then (ok tt, s) else decode payload s

  -- `is_text` is whether the opcode of the frame is `text`.
  unfoldable pub on_client_message : Bool → String → Action S
  on_client_message is_text payload s = if not is_text then (ok tt, s) else recv_message payload s
