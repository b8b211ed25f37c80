-- ===== src/WebSocket/Callbacks.antt =====
-- websocket_transport.ipp: the callbacks `OnClientOpen`, `OnClientClose` and `OnClientFail`, and
-- `SendMessage`.
use barbarossa.Common.{ℕ, zero, suc, String, Bool, true, false, Option, none, some, []}
use barbarossa.Errors.{network_error}
use barbarossa.Errors.ErrorMessages
use barbarossa.Errors.Outcome
use barbarossa.Errors.Outcome.{Outcome, ok, throws, or_throw}
use barbarossa.Errors.Exec.{Action, pure, throw, lift, ◌>>=◌, ◌>>◌}
use barbarossa.Promise
use barbarossa.Json.{JsonLib, bad_type}
use barbarossa.Message.{Message, size, field_at}
use barbarossa.WebSocket.{WebSocket, send, command, on_connected, set_open}

set_done : Action WebSocket
set_done w = (ok tt, record w { done = true })

unfoldable pub on_client_open : Action WebSocket
on_client_open = do set_open true; on_connected (Promise.set_value tt)

unfoldable pub on_client_close : Action WebSocket
unfolding set_done
on_client_close = set_done

refuse_connection : Bool → Action WebSocket
refuse_connection true = pure tt
refuse_connection false =
    on_connected (Promise.set_exception (network_error ErrorMessages.transport_connection_failed))

refuse_unless_open : Action WebSocket
unfolding refuse_connection
refuse_unless_open w = refuse_connection w.open_ w

unfoldable pub on_client_fail : Action WebSocket
unfolding set_done refuse_unless_open
on_client_fail = do refuse_unless_open; set_done

module _ ⦃J : JsonLib⦄ where
  open J use {Json, array, push_back, dump}

  -- The loop of `SendMessage`, over the rounds that are left.
  unfoldable pub collect : ℕ → ℕ → Message → Json → Outcome Json
  collect zero i m j = ok j
  collect (suc rounds) i m j =
      Outcome.◌>>=◌ (field_at i m)
        λ v. Outcome.◌>>=◌ (push_back j v) λ j'. collect rounds (suc i) m j'

  unfoldable pub to_array : Message → Outcome Json
  to_array m = collect (size m) 0 m (array [])

  sent : Option String → Action WebSocket
  sent none = pure tt
  sent (some text) = throw (network_error text)

  transfer : String → Action WebSocket
  unfolding sent
  transfer text w = sent (w.client.send_error text) w

  unfoldable pub send_message : Message → Action WebSocket
  unfolding transfer
  send_message m = do
    j ← lift (to_array m)
    text ← lift (or_throw bad_type (dump j))
    command (send text)
    transfer text
