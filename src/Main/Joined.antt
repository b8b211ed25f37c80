-- ===== src/Main/Joined.antt =====
-- src/main.cpp: the runs of the program in which the session is joined.
use barbarossa.Common.{ℕ, ◌<◌, ◌^◌, ◌≡◌, ◌≢◌, ◌++◌, refl, String, true, false, some, none, [], ◌∷◌}
use barbarossa.Errors.Hierarchy.{is_abort_error, is_timeout_error}
use barbarossa.Errors.Outcome.{ok, terminates}
use barbarossa.Errors.Exec.{Action, pure, ◌>>◌}
use barbarossa.Promise.{not_ready}
use barbarossa.Json.{JsonLib}
use barbarossa.Session.{Session, finished, on_detach, listen_end, listen_begin}
use barbarossa.Session.Messages.{hello_fields, ping_fields}
use barbarossa.Session.Heartbeat.{heartbeat_begin, heartbeat_end}
use barbarossa.Session.Pulse.{pinged, heartbeat_begin-pinged, run_posted-pinged}
use barbarossa.Session.Join.{run_posted}
use barbarossa.Session.Joining.{welcome_fields}
use barbarossa.Session.Sending.{CanSend}
use barbarossa.Session.Welcome.{welcomed}
use barbarossa.WebSocket.{WebSocket, Client, start_perpetual, run, connect, send, is_connected}
use barbarossa.WebSocket.Receive.{detach, on_client_message}
use barbarossa.WebSocket.Delivery.{send_message_lem}
use barbarossa.Main.{
  web_transport, session_web, session_handler, after_try, catch_clause, on_signal,
}
use barbarossa.Main.Program.{after_try_block, then_listen, run_main, start}
use barbarossa.Main.Wiring.{on_signal_terminates}
use barbarossa.Main.Phases.{
  opens_and_answers, waiting_session, attach-start, try_block-opened, then_join-welcomed,
}

module _ ⦃J : JsonLib⦄ where
  open J use {Json, array, dump, parse}

  -- The session that was joined, while `Listen` waits.
  abbrev pub joined_session : Client → String → ℕ → Session WebSocket
  joined_session c hello id = record (welcomed id (waiting_session c hello)) {
    leaved = record { shared = not_ready; retrieved = true };
  }

  joined-CanSend :
      (c : Client) (hello : String) (id : ℕ) → id ≢ 0 → CanSend (joined_session c hello id) true
  unfolding is_connected
  joined-CanSend c hello id z = record { attached = refl; connected = refl; joined = λ e. z }

  -- A round of the heartbeat in which the ping goes out and no pong comes.
  abbrev pub silent : Action (Session WebSocket)
  silent = heartbeat_begin false >> (run_posted true >> heartbeat_end)

  pub run_posted-ping :
      (c : Client) (hello ping : String) (id : ℕ)
      → id ≢ 0
      → dump (array ping_fields.fields) ≡ some ping
      → c.send_error ping ≡ none
      → let s = joined_session c hello id in
        run_posted true (pinged s) ≡ (
          ok tt,
          record (pinged s) {
            transport = record s.transport { commands = s.transport.commands ++ send ping ∷ [] };
            posted = [];
          },
        )
  run_posted-ping c hello ping id z p e =
      run_posted-pinged (joined_session c hello id) _ refl (joined-CanSend c hello id z)
        (((send_message_lem ping_fields (joined_session c hello id).transport).0 ping p).0 e)

  pub run_main-welcomed :
      (c : Client) (realm hello text : String) (id : ℕ) (details : Json)
      (l : Action (Session WebSocket))
      → id < 2 ^ 32
      → c.connection_error ≡ false
      → dump (array (hello_fields realm).fields) ≡ some hello
      → c.send_error hello ≡ none
      → parse text ≡ some (array (welcome_fields id details).fields)
      → let o = opens_and_answers (on_client_message true text) l in
        run_main o realm (start c)
        ≡ after_try_block (then_listen o (welcomed id (waiting_session c hello)))
  unfolding run_main
  run_main-welcomed c realm hello text id details l h n p e q =
      rw
        (
          attach-start c,
          try_block-opened c realm (run_posted true >> on_client_message true text) l n,
          then_join-welcomed c realm hello text id details l h p e q,
        )
        refl

  pub run_main_joined :
      (c : Client) (realm hello text : String) (id : ℕ) (details : Json)
      → id < 2 ^ 32
      → id ≢ 0
      → c.connection_error ≡ false
      → dump (array (hello_fields realm).fields) ≡ some hello
      → c.send_error hello ≡ none
      → parse text ≡ some (array (welcome_fields id details).fields)
      → let welcomes : Action (Session WebSocket) = on_client_message true text in
        ((ping : String)
          → dump (array ping_fields.fields) ≡ some ping
          → c.send_error ping ≡ none
          → let (r, s) = run_main (opens_and_answers welcomes silent) realm (start c) in
            (r ≡ some (ok tt))
            × (s.attached ≡ false)
            × (s.heartbeat ≡ finished)
            × (s.transport.commands
                ≡ start_perpetual ∷ run ∷ connect ∷ send hello ∷ send ping ∷ []))
        × ((run_main (opens_and_answers welcomes (pure tt)) realm (start c)).0 ≡ none)
        × ((run_main (opens_and_answers welcomes on_signal) realm (start c)).0 ≡ some terminates)
  unfolding listen_begin listen_end heartbeat_end is_connected after_try catch_clause is_abort_error
      is_timeout_error detach on_detach
  run_main_joined c realm hello text id details h z n p e q = (
    λ ping pp pe.
        rw
          (
            run_main-welcomed c realm hello text id details silent h n p e q,
            heartbeat_begin-pinged (joined_session c hello id) refl,
            run_posted-ping c hello ping id z pp pe,
          )
          (refl, refl, refl, refl),
    rw (run_main-welcomed c realm hello text id details (pure tt) h n p e q) refl,
    rw
        (
          run_main-welcomed c realm hello text id details on_signal h n p e q,
          on_signal_terminates (joined_session c hello id) refl refl refl refl,
        )
        refl,
  )
