-- ===== src/Main/Unjoined.antt =====
-- src/main.cpp: the runs of the program in which no session comes about.
use barbarossa.Common.{◌≡◌, refl, String, true, false, Option, some, none}
use barbarossa.Errors.Hierarchy.{is_abort_error, is_timeout_error, is_network_error}
use barbarossa.Errors.Outcome.{Outcome, ok, terminates}
use barbarossa.Errors.Exec.{Action, pure, ◌>>◌}
use barbarossa.Json.{JsonLib}
use barbarossa.Session.{Session, on_detach}
use barbarossa.Session.Messages.{hello_fields}
use barbarossa.Session.Join.{join_end, run_posted}
use barbarossa.Session.Joining.{on_message-abort, abort_fields}
use barbarossa.WebSocket.{WebSocket, Client, connect_begin, connect_end}
use barbarossa.WebSocket.Callbacks.{on_client_fail}
use barbarossa.WebSocket.Receive.{detach, on_client_message}
use barbarossa.Main.{web_transport, session_web, session_handler, after_try, catch_clause}
use barbarossa.Main.Program.{Others, on_transport, try_block, run_main, start}
use barbarossa.Main.Phases.{
  others, opens_and_answers, waiting_session, attach-start, try_block-opened, then_join-answered,
  receives-waiting,
}

module _ ⦃J : JsonLib⦄ where
  open J use {Json, array, dump, parse}

  -- `main` returns, with the session detached and without an id.
  abbrev pub EndsUnjoined : Option (Outcome (Unit {0})) × Session WebSocket → Type 0
  EndsUnjoined (r, s) = (r ≡ some (ok tt)) × (s.attached ≡ false) × (s.session_id ≡ 0)

  run_main-refused :
      (c : Client) (realm : String) (o : Others)
      → c.connection_error ≡ true
      → (run_main o realm (start c)).0 ≡ some terminates
  unfolding run_main try_block connect_begin after_try catch_clause is_abort_error is_timeout_error
      is_network_error
  run_main-refused c realm o e = rw (attach-start c, e) refl

  run_main-failed :
      (c : Client) (realm : String) (j l : Action (Session WebSocket))
      → c.connection_error ≡ false
      → EndsUnjoined (run_main (others (on_transport on_client_fail) j l) realm (start c))
  unfolding run_main try_block connect_begin connect_end on_client_fail after_try catch_clause
      is_abort_error is_timeout_error is_network_error detach on_detach
  run_main-failed c realm j l e = rw (attach-start c, e) (refl, refl, refl)

  run_main-unanswered :
      (c : Client) (realm hello : String) (l : Action (Session WebSocket))
      → c.connection_error ≡ false
      → dump (array (hello_fields realm).fields) ≡ some hello
      → c.send_error hello ≡ none
      → EndsUnjoined (run_main (opens_and_answers (pure tt) l) realm (start c))
  unfolding run_main after_try catch_clause is_abort_error is_timeout_error join_end detach
      on_detach
  run_main-unanswered c realm hello l n p e =
      rw
        (
          attach-start c,
          try_block-opened c realm (run_posted true >> pure tt) l n,
          then_join-answered c realm hello (pure tt) l p e,
        )
        (refl, refl, refl)

  run_main-aborted :
      (c : Client) (realm hello text reason : String) (details : Json)
      (l : Action (Session WebSocket))
      → c.connection_error ≡ false
      → dump (array (hello_fields realm).fields) ≡ some hello
      → c.send_error hello ≡ none
      → parse text ≡ some (array (abort_fields reason details).fields)
      → EndsUnjoined (run_main (opens_and_answers (on_client_message true text) l) realm (start c))
  unfolding run_main after_try catch_clause is_abort_error join_end detach on_detach
  run_main-aborted c realm hello text reason details l n p e q =
      rw
        (
          attach-start c,
          try_block-opened c realm (run_posted true >> on_client_message true text) l n,
          then_join-answered c realm hello (on_client_message true text) l p e,
          receives-waiting c hello text (abort_fields reason details) q,
          on_message-abort reason details (waiting_session c hello) refl,
        )
        (refl, refl, refl)

  pub run_main_unjoined :
      (c : Client) (realm : String) (o : Others)
      → (c.connection_error ≡ true → (run_main o realm (start c)).0 ≡ some terminates)
        × (c.connection_error ≡ false
            → EndsUnjoined (
                run_main
                  (others (on_transport on_client_fail) o.joining o.listening)
                  realm
                  (start c)))
        × ((hello : String)
            → c.connection_error ≡ false
            → dump (array (hello_fields realm).fields) ≡ some hello
            → c.send_error hello ≡ none
            → EndsUnjoined (run_main (opens_and_answers (pure tt) o.listening) realm (start c))
              × ((text reason : String) (details : Json)
                  → parse text ≡ some (array (abort_fields reason details).fields)
                  → EndsUnjoined (
                      run_main
                        (opens_and_answers (on_client_message true text) o.listening)
                        realm
                        (start c))))
  run_main_unjoined c realm o = (
    run_main-refused c realm o,
    run_main-failed c realm o.joining o.listening,
    λ hello n p e. (
      run_main-unanswered c realm hello o.listening n p e,
      λ text reason details q.
          run_main-aborted c realm hello text reason details o.listening n p e q,
    ),
  )
