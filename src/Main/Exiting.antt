-- ===== src/Main/Exiting.antt =====
-- src/main.cpp: how the program exits.
use barbarossa.Common.{
  ℕ, ◌≤◌, ◌<◌, ◌^◌, ◌≡◌, ◌≢◌, refl, ap, length, String, Bool, true, false, Option, some, none, List,
  [], ◌∷◌, arith,
}
use barbarossa.Errors.Hierarchy.{is_abort_error, is_timeout_error, is_network_error}
use barbarossa.Errors.Outcome.{Outcome, ok, terminates}
use barbarossa.Errors.Exec.{Action, pure, ◌>>◌}
use barbarossa.Json.{JsonLib}
use barbarossa.Session.{Session, sleeping, on_detach, leave, listen_begin, listen_end}
use barbarossa.Session.Messages.{hello_fields, ping_fields}
use barbarossa.Session.Heartbeat.{heartbeat_end}
use barbarossa.Session.Join.{join_end, run_posted}
use barbarossa.Session.Joining.{on_message-abort, abort_fields, welcome_fields}
use barbarossa.WebSocket.{
  WebSocket, Client, connect_begin, connect_end, disconnect, stop_client,
  destroy as destroy_transport,
}
use barbarossa.Session.Destroy.{destroy as destroy_session}
use barbarossa.WebSocket.Callbacks.{on_client_fail, on_client_close}
use barbarossa.WebSocket.Receive.{detach, on_client_message}
use barbarossa.Main.{
  web_transport, session_web, session_handler, after_try, catch_clause, on_signal,
}
use barbarossa.Main.Program.{Others, on_transport, try_block, run_main}
use barbarossa.Main.Phases.{
  others, opens_and_answers, waiting_session, attach-start, try_block-opened, then_join-answered,
  receives-waiting,
}
use barbarossa.Main.Joined.{silent, joined_session, run_main-welcomed, run_posted-ping}
use barbarossa.Session.Pulse.{heartbeat_begin-pinged}
use barbarossa.Session.Destroying.{destroy-sleeping}
use barbarossa.Main.Exit.{main, exit_code, end_main, destroy_objects}

module _ ⦃J : JsonLib⦄ where
  open J use {Json, array, dump, parse}

  main_arguments :
      (clients : String → Client) (o : Others) (f : Action (Session WebSocket)) (woken : Bool)
      (argv : List String)
      → length argv ≤ 2
      → main clients o f woken argv ≡ some (ok 1)
  unfolding main
  main_arguments clients o f woken [] h = refl
  main_arguments clients o f woken (a ∷ []) h = refl
  main_arguments clients o f woken (a ∷ b ∷ []) h = refl
  main_arguments clients o f woken (a ∷ b ∷ c ∷ cs) h = ground arith

  -- A session that its heartbeat still uses, over a connection that was closed.
  destroy_objects-used :
      (woken : Bool) (s : Session WebSocket)
      → s.heartbeat ≡ sleeping
      → s.transport.done ≡ true
      → s.transport.joinable ≡ true
      → (destroy_objects woken s).0 ≡ some terminates
  unfolding destroy_objects destroy_transport
  destroy_objects-used true s h d j = let (c, e) = destroy-sleeping s h in rw e (ground arith)
  destroy_objects-used false s h d j = let (c, e) = destroy-sleeping s h in rw c refl

  -- The peer closes the connection, and then a signal comes.
  abbrev pub leaves_after_close : Action (Session WebSocket)
  leaves_after_close = on_transport on_client_close >> on_signal

module _ ⦃J : JsonLib⦄ (clients : String → Client) (program uri realm : String) (rest : List String)
    (woken : Bool) (l : Action (Session WebSocket)) where
  open J use {Json, array, dump, parse}

  -- The exit where no one uses the context any more once `main` has stopped it.
  abbrev pub exits : Others → Option (Outcome ℕ)
  exits o = main clients o (pure tt) woken (program ∷ uri ∷ realm ∷ rest)

  main-failed :
      (j : Action (Session WebSocket))
      → (clients uri).connection_error ≡ false
      → exits (others (on_transport on_client_fail) j l) ≡ some terminates
  unfolding main end_main run_main try_block connect_begin connect_end on_client_fail after_try
      catch_clause is_abort_error is_timeout_error is_network_error detach on_detach destroy_session
      destroy_transport
  main-failed j e = rw (attach-start (clients uri), e) refl

  main-unanswered :
      (hello : String)
      → (clients uri).connection_error ≡ false
      → dump (array (hello_fields realm).fields) ≡ some hello
      → (clients uri).send_error hello ≡ none
      → exits (opens_and_answers (pure tt) l) ≡ some (ok 0)
  unfolding main end_main run_main after_try catch_clause is_abort_error is_timeout_error join_end
      detach on_detach destroy_session destroy_transport
  main-unanswered hello n p e =
      rw
        (
          attach-start (clients uri),
          try_block-opened (clients uri) realm (run_posted true >> pure tt) l n,
          then_join-answered (clients uri) realm hello (pure tt) l p e,
        )
        refl

  main-aborted :
      (hello text reason : String) (details : Json)
      → (clients uri).connection_error ≡ false
      → dump (array (hello_fields realm).fields) ≡ some hello
      → (clients uri).send_error hello ≡ none
      → parse text ≡ some (array (abort_fields reason details).fields)
      → exits (opens_and_answers (on_client_message true text) l) ≡ some (ok 0)
  unfolding main end_main run_main after_try catch_clause is_abort_error join_end detach on_detach
      destroy_session destroy_transport
  main-aborted hello text reason details n p e q =
      rw
        (
          attach-start (clients uri),
          try_block-opened (clients uri) realm (run_posted true >> on_client_message true text) l n,
          then_join-answered (clients uri) realm hello (on_client_message true text) l p e,
          receives-waiting (clients uri) hello text (abort_fields reason details) q,
          on_message-abort reason details (waiting_session (clients uri) hello) refl,
        )
        refl

  main-silent :
      (hello text ping : String) (id : ℕ) (details : Json)
      → id < 2 ^ 32
      → id ≢ 0
      → (clients uri).connection_error ≡ false
      → dump (array (hello_fields realm).fields) ≡ some hello
      → (clients uri).send_error hello ≡ none
      → parse text ≡ some (array (welcome_fields id details).fields)
      → dump (array ping_fields.fields) ≡ some ping
      → (clients uri).send_error ping ≡ none
      → exits (opens_and_answers (on_client_message true text) silent) ≡ some (ok 0)
  unfolding main end_main listen_begin listen_end heartbeat_end after_try catch_clause
      is_abort_error is_timeout_error detach on_detach destroy_session destroy_transport
  main-silent hello text ping id details h z n p e q pp pe =
      rw
        (
          run_main-welcomed (clients uri) realm hello text id details silent h n p e q,
          heartbeat_begin-pinged (joined_session (clients uri) hello id) refl,
          run_posted-ping (clients uri) hello ping id z pp pe,
        )
        refl

  main-left :
      (hello text : String) (id : ℕ) (details : Json)
      → id < 2 ^ 32
      → (clients uri).connection_error ≡ false
      → dump (array (hello_fields realm).fields) ≡ some hello
      → (clients uri).send_error hello ≡ none
      → parse text ≡ some (array (welcome_fields id details).fields)
      → exits (opens_and_answers (on_client_message true text) leaves_after_close) ≡ some terminates
  unfolding main end_main listen_begin listen_end on_client_close on_signal leave disconnect
      stop_client after_try detach on_detach destroy_session destroy_transport
  main-left hello text id details h n p e q =
      rw (run_main-welcomed (clients uri) realm hello text id details leaves_after_close h n p e q)
        (ap exit_code (destroy_objects-used woken _ refl refl refl))

  pub main_lem :
      (clients uri).connection_error ≡ false
      → ((o : Others) (f : Action (Session WebSocket)) (woken : Bool) (argv : List String)
          → length argv ≤ 2
          → main clients o f woken argv ≡ some (ok 1))
        × ((j : Action (Session WebSocket))
            → exits (others (on_transport on_client_fail) j l) ≡ some terminates)
        × ((hello : String)
            → dump (array (hello_fields realm).fields) ≡ some hello
            → (clients uri).send_error hello ≡ none
            → (exits (opens_and_answers (pure tt) l) ≡ some (ok 0))
              × ((text reason : String) (details : Json)
                  → parse text ≡ some (array (abort_fields reason details).fields)
                  → exits (opens_and_answers (on_client_message true text) l) ≡ some (ok 0))
              × ((text ping : String) (id : ℕ) (details : Json)
                  → id < 2 ^ 32
                  → id ≢ 0
                  → parse text ≡ some (array (welcome_fields id details).fields)
                  → dump (array ping_fields.fields) ≡ some ping
                  → (clients uri).send_error ping ≡ none
                  → exits (opens_and_answers (on_client_message true text) silent) ≡ some (ok 0))
              × ((text : String) (id : ℕ) (details : Json)
                  → id < 2 ^ 32
                  → parse text ≡ some (array (welcome_fields id details).fields)
                  → exits (opens_and_answers (on_client_message true text) leaves_after_close)
                    ≡ some terminates))
  main_lem n = (
    main_arguments clients,
    λ j. main-failed j n,
    λ hello p e. (
      main-unanswered hello n p e,
      λ text reason details q. main-aborted hello text reason details n p e q,
      λ text ping id details h z q pp pe. main-silent hello text ping id details h z n p e q pp pe,
      λ text id details h q. main-left hello text id details h n p e q,
    ),
  )
