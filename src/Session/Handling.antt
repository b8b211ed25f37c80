-- ===== src/Session/Handling.antt =====
-- How the handlers of a session can end the process, and what rules it out.
use barbarossa.Common.{
  ℕ, ℤ, ◌≡◌, refl, String, Option, none, some, List, [], ◌∷◌, arith, Bool, true, false, not, ◌==◌,
}
use barbarossa.Errors.{Exception}
use barbarossa.Errors.Hierarchy.{is_network_error}
use barbarossa.Errors.Outcome.{Outcome, ok, throws, undefined, terminates, or_throw}
use barbarossa.Errors.Safe.{Survives, Survives-lift, Survives-then, Survives-if}
use barbarossa.Promise
use barbarossa.Promise.{Promise, is_ready}
use barbarossa.Json.{JsonLib, bad_type}
use barbarossa.Message.{Message, field_as}
use barbarossa.Transport.{Transport}
use barbarossa.Session.State.{is_establishing}
use barbarossa.Session.Messages.{result_message_lem, error_message_lem, hello_message_lem}
use barbarossa.Session.{
  Session, Operation, Task, not_started, send_hello, send_ping, send_message, lookup, on_pong,
  ensure_state,
}
use barbarossa.Session.Handlers.{process_welcome, process_abort, process_call, answer}
use barbarossa.Session.Join.{
  join_begin, next_task, run_task, catch_hello, catch_ping, catch_network,
}

module _ {A : Type 0} where
  pub set_value-Survives : (a : A) (p : Promise A) → Survives (Promise.set_value a p).0
  set_value-Survives a p = ground arith

  pub set_exception-Survives :
      (e : Exception) (p : Promise A) → Survives (Promise.set_exception e p).0
  set_exception-Survives e p = ground arith

or_throw-Survives : {A : Type 0} (e : Exception) (o : Option A) → Survives (or_throw e o)
or_throw-Survives e none = λ q. cc
or_throw-Survives e (some a) = λ q. cc

module _ ⦃J : JsonLib⦄ where
  open J use {Json}

  pub field_as-Survives :
      {A : Type 0} (get : Json → Option A) (i : ℕ) (m : Message) → Survives (field_as get i m)
  unfolding field_as
  field_as-Survives get i m = ground arith

module _ ⦃J : JsonLib⦄ {T : Type 0} where
  open J use {get_uint}

  pub process_welcome-Survives :
      (m : Message) (s : Session T)
      → (is_establishing s.state ≡ true → s.heartbeat ≡ not_started)
      → Survives (process_welcome m s).0
  unfolding process_welcome
  process_welcome-Survives m s w = ground (arith, field_as-Survives get_uint 1 m)

  pub join_begin-Survives : (realm : String) (s : Session T) → Survives (join_begin realm s).0
  unfolding join_begin ensure_state
  join_begin-Survives realm s = rw (hello_message_lem realm) (ground arith)

module _ ⦃J : JsonLib⦄ {T : Type 0} ⦃tr : Transport T⦄
    (sends : (m : Message) (t : T) → Survives (tr.send_message m t).0) where
  open J use {Json, get_int, get_string, dump}

  send_message-Survives : (m : Message) (b : Bool) (s : Session T) → Survives (send_message m b s).0
  unfolding send_message
  send_message-Survives m b s = ground (arith, sends m s.transport)

  catch_hello-Survives :
      (r : Outcome (Unit {0})) (s : Session T) → Survives r → Survives (catch_hello r s).0
  catch_hello-Survives (throws e) s h = set_exception-Survives _ s.joined
  catch_hello-Survives (ok u) s h = h
  catch_hello-Survives undefined s h = h
  catch_hello-Survives terminates s h = h

  catch_network-Survives :
      (b : Bool) (e : Exception) (s : Session T) → Survives (catch_network b e s).0
  catch_network-Survives true e s =
      Survives-then (on_pong (Promise.set_value false)) _ s
        (set_value-Survives false s.pong_received) (set_exception-Survives _ s.leaved)
  catch_network-Survives false e s = λ q. cc

  catch_ping-Survives :
      (r : Outcome (Unit {0})) (s : Session T) → Survives r → Survives (catch_ping r s).0
  catch_ping-Survives (throws e) s h = catch_network-Survives (is_network_error e) e s
  catch_ping-Survives (ok u) s h = h
  catch_ping-Survives undefined s h = h
  catch_ping-Survives terminates s h = h

  run_task-Survives : (t : Task) (s : Session T) → Survives (run_task t s).0
  unfolding run_task
  run_task-Survives (send_hello m) s =
      Survives-if (not (s.session_id == 0)) _ _ (λ q. set_exception-Survives _ s.joined)
        λ q. catch_hello-Survives _ _ (send_message-Survives m false s)
  run_task-Survives (send_ping m) s = catch_ping-Survives _ _ (send_message-Survives m true s)

  answer-Survives :
      (id : ℤ) (arguments : Json) (o : Option Operation) (s : Session T)
      → ((f : Operation) → o ≡ some f → Survives (f arguments))
      → Survives (answer id arguments o s).0
  unfolding answer
  answer-Survives id arguments (some f) s h = Survives-lift (f arguments) _ s (h f refl) λ r q.
      Survives-lift (or_throw bad_type (dump r)) _ s (or_throw-Survives _ (dump r))
        λ u q'. rw (result_message_lem id r) (send_message-Survives _ true s)
  answer-Survives id arguments none s h = rw (error_message_lem id) (send_message-Survives _ true s)

  pub process_call-Survives :
      (m : Message) (s : Session T)
      → ((name : String) (f : Operation) (j : Json)
          → lookup name s.operations ≡ some f
          → Survives (f j))
      → Survives (process_call m s).0
  unfolding process_call
  process_call-Survives m s ops =
      Survives-lift (field_as get_int 1 m) _ s (field_as-Survives get_int 1 m) λ id p.
        Survives-lift (field_as get_string 2 m) _ s (field_as-Survives get_string 2 m) λ name q.
          Survives-lift (field_as (λ (j : Json). some j) 3 m) _ s (field_as-Survives _ 3 m)
            λ j r. answer-Survives id j (lookup name s.operations) s λ f e. ops name f j e

  pub process_abort-Survives : (m : Message) (s : Session T) → Survives (process_abort m s).0
  unfolding process_abort
  process_abort-Survives m s =
      Survives-lift (field_as get_string 1 m) _ s (field_as-Survives get_string 1 m)
        λ reason q. set_exception-Survives _ s.joined

  pub next_task-Survives :
      (alive : Bool) (ts : List Task) (s : Session T) → Survives (next_task alive ts s).0
  unfolding next_task
  next_task-Survives alive [] s = λ q. cc
  next_task-Survives false (t ∷ ts) s = λ q. cc
  next_task-Survives true (t ∷ ts) s = run_task-Survives t (record s { posted = ts })
