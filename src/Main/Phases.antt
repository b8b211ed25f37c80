-- ===== src/Main/Phases.antt =====
-- src/main.cpp: the parts of a run of the program, over the transport of the repository.
use barbarossa.Common.{ℕ, ◌<◌, ◌^◌, ◌≡◌, refl, String, true, false, some, none, [], ◌∷◌}
use barbarossa.Errors.Outcome.{ok}
use barbarossa.Errors.Exec.{Action, ◌>>◌}
use barbarossa.Promise.{value, fresh}
use barbarossa.Json.{JsonLib}
use barbarossa.Message.{Message}
use barbarossa.Session.{Session, initial, insert, register_operation, on_attach}
use barbarossa.Session.Messages.{hello_fields}
use barbarossa.Session.Handlers.{on_message}
use barbarossa.Session.Join.{join_end, run_posted}
use barbarossa.Session.Joining.{
  IsNew, welcome_fields, waiting, joining, join_begin_new, run_posted-joining, on_message-welcome,
}
use barbarossa.Session.Sending.{CanSend}
use barbarossa.Session.Welcome.{welcomed}
use barbarossa.WebSocket.{
  WebSocket, Client, start_perpetual, run, connect, send, create, connect_begin, connect_end,
  is_connected,
}
use barbarossa.WebSocket.Callbacks.{on_client_open}
use barbarossa.WebSocket.Receive.{attach, on_client_message}
use barbarossa.WebSocket.Delivery.{send_message_lem, on_client_message_received}
use barbarossa.Main.{web_transport, session_web, session_handler, say_hello}
use barbarossa.Main.Program.{
  meanwhile, waits, discard, Others, on_transport, then_join, then_listen, try_block, start,
}

module _ ⦃J : JsonLib⦄ where
  open J use {Json, array, dump, parse}

  -- The transport and the session once `Connect` has returned.
  abbrev opened_socket : Client → WebSocket
  opened_socket c = record {
    client = c;
    open_ = true;
    done = false;
    joinable = true;
    has_handler = true;
    connected = record { shared = value tt; retrieved = true };
    commands = start_perpetual ∷ run ∷ connect ∷ [];
  }

  abbrev opened_session : Client → Session WebSocket
  opened_session c = record (initial (opened_socket c)) {
    attached = true;
    operations = insert "say_hello" say_hello [];
  }

  abbrev linked_session : Client → Session WebSocket
  linked_session c = record (opened_session c) {
    transport = record (opened_socket c) {
      open_ = false;
      connected = fresh;
      commands = start_perpetual ∷ run ∷ [];
    };
  }

  abbrev pub others :
      Action (Session WebSocket) → Action (Session WebSocket) → Action (Session WebSocket) → Others
  others f g l = record { connecting = f; joining = g; listening = l }

  -- The connection opens, the HELLO goes out, and then the answer comes.
  abbrev pub opens_and_answers : Action (Session WebSocket) → Action (Session WebSocket) → Others
  opens_and_answers answer l = others (on_transport on_client_open) (run_posted true >> answer) l

  pub attach-start : (c : Client) → attach (start c) ≡ (ok tt, linked_session c)
  unfolding attach on_attach start register_operation create
  attach-start c = refl

  pub try_block-opened :
      (c : Client) (realm : String) (j l : Action (Session WebSocket))
      → c.connection_error ≡ false
      → let o = others (on_transport on_client_open) j l in
        try_block o realm (linked_session c) ≡ then_join o realm (opened_session c)
  unfolding try_block connect_begin connect_end on_client_open
  try_block-opened c realm j l e = rw e refl

  -- The peer: what the client library makes of the address and of the HELLO that is sent.
  abbrev pub waiting_session : Client → String → Session WebSocket
  waiting_session c text =
      waiting
        (record (opened_socket c) { commands = start_perpetual ∷ run ∷ connect ∷ send text ∷ [] })
        (opened_session c)

  opened-IsNew : (c : Client) → IsNew (opened_session c)
  opened-IsNew c = record { no_id = refl; no_thread = refl; waits = refl; idle = refl }

  opened-CanSend : (c : Client) → CanSend (opened_session c) false
  unfolding is_connected
  opened-CanSend c = record { attached = refl; connected = refl; joined = λ e. cc }

  run_posted-hello :
      (c : Client) (realm text : String)
      → dump (array (hello_fields realm).fields) ≡ some text
      → c.send_error text ≡ none
      → run_posted true (joining realm (opened_session c)) ≡ (ok tt, waiting_session c text)
  run_posted-hello c realm text p e =
      run_posted-joining realm (opened_session c) _ (opened-IsNew c) (opened-CanSend c)
        (((send_message_lem (hello_fields realm) (opened_socket c)).0 text p).0 e)

  -- `Join` over the transport, where `answer` is what comes back.
  pub then_join-answered :
      (c : Client) (realm text : String) (answer l : Action (Session WebSocket))
      → dump (array (hello_fields realm).fields) ≡ some text
      → c.send_error text ≡ none
      → let o = opens_and_answers answer l in
        then_join o realm (opened_session c)
        ≡ meanwhile answer
            (waits (λ s. some (discard (join_end s))) (then_listen o))
            (waiting_session c text)
  then_join-answered c realm text answer l p e =
      rw
        (
          join_begin_new realm (opened_session c) (opened-IsNew c),
          run_posted-hello c realm text p e,
        )
        refl

  -- What arrives in a text frame reaches the session as the message that it was written from.
  pub receives-waiting :
      (c : Client) (sent text : String) (m : Message)
      → parse text ≡ some (array m.fields)
      → on_client_message true text (waiting_session c sent) ≡ on_message m (waiting_session c sent)
  receives-waiting c sent text m q =
      on_client_message_received m text (waiting_session c sent) q refl

  pub then_join-welcomed :
      (c : Client) (realm hello text : String) (id : ℕ) (details : Json)
      (l : Action (Session WebSocket))
      → id < 2 ^ 32
      → dump (array (hello_fields realm).fields) ≡ some hello
      → c.send_error hello ≡ none
      → parse text ≡ some (array (welcome_fields id details).fields)
      → let o = opens_and_answers (on_client_message true text) l in
        then_join o realm (opened_session c) ≡ then_listen o (welcomed id (waiting_session c hello))
  unfolding join_end
  then_join-welcomed c realm hello text id details l h p e q =
      rw
        (
          then_join-answered c realm hello (on_client_message true text) l p e,
          receives-waiting c hello text (welcome_fields id details) q,
          on_message-welcome id details (waiting_session c hello) h refl refl refl,
        )
        refl
