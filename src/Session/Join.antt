-- ===== src/Session/Join.antt =====
-- session.ipp, `Join`: the two parts of the call, before and after its wait, and the handlers that the
-- session posts to the I/O context.
use barbarossa.Common.{ℕ, String, Bool, true, false, not, List, [], ◌∷◌, ◌==◌, if◌then◌else◌}
use barbarossa.Errors.{Exception, logic_error, timeout_error}
use barbarossa.Errors.ErrorMessages
use barbarossa.Errors.Hierarchy.{is_network_error, copy_as_std_exception, copy_as_network_error}
use barbarossa.Errors.Outcome.{Outcome, ok, throws}
use barbarossa.Errors.Exec.{Action, throw, lift, ◌>>=◌, ◌>>◌}
use barbarossa.Promise
use barbarossa.Promise.{Promise, Shared, not_ready, value, failure}
use barbarossa.Json.{JsonLib}
use barbarossa.Transport.{Transport}
use barbarossa.Session.State.{establishing}
use barbarossa.Session.Messages.{hello_message}
use barbarossa.Session.{
  Session, Task, send_hello, send_ping, on_joined, on_leaved, on_pong, post, ensure_state,
  send_message,
}

-- `wait_for` and `get` on the future of `joined_`, as the waiting thread finds it when it wakes.
abbrev pub joined_result : Shared ℕ → Outcome ℕ
joined_result not_ready = throws timeout_error
joined_result (value id) = ok id
joined_result (failure e) = throws e

module _ ⦃J : JsonLib⦄ {T : Type 0} where
  -- `Join` up to its wait.
  unfoldable pub join_begin : String → Action (Session T)
  join_begin realm = do
    m ← lift (hello_message realm)
    ensure_state establishing
    post (send_hello m)
    on_joined Promise.get_future

  -- `Join` after its wait of 16 seconds, or less where the promise is set earlier.
  unfoldable pub join_end : Session T → Outcome ℕ
  join_end s = joined_result s.joined.shared

module _ ⦃J : JsonLib⦄ {T : Type 0} ⦃tr : Transport T⦄ where
  -- `catch (std::exception& e)` in the handler that `Join` posts.
  abbrev pub catch_hello : Outcome (Unit {0}) → Action (Session T)
  catch_hello (throws e) = on_joined (Promise.set_exception (copy_as_std_exception e))
  catch_hello r = lift r

  -- `catch (const NetworkError& e)` in the handler that the heartbeat posts.
  abbrev pub catch_network : Bool → Exception → Action (Session T)
  catch_network true e = do
    on_pong (Promise.set_value false)
    on_leaved (Promise.set_exception (copy_as_network_error e))
  catch_network false e = throw e

  abbrev pub catch_ping : Outcome (Unit {0}) → Action (Session T)
  catch_ping (throws e) = catch_network (is_network_error e) e
  catch_ping r = lift r

  -- The bodies of the handlers, where the session still exists.
  unfoldable pub run_task : Task → Action (Session T)
  run_task (send_hello m) s =
      if not (s.session_id == 0)
      then on_joined (Promise.set_exception (logic_error ErrorMessages.session_already_joined)) s
      else (let (r, s') = send_message m false s in catch_hello r s')
  run_task (send_ping m) s = let (r, s') = send_message m true s in catch_ping r s'

  -- The I/O context runs the oldest handler; `alive` is whether `weak_self.lock()` gives the session.
  unfoldable pub next_task : Bool → List Task → Action (Session T)
  next_task alive [] s = (ok tt, s)
  next_task false (t ∷ ts) s = (ok tt, record s { posted = ts })
  next_task true (t ∷ ts) s = run_task t (record s { posted = ts })

  unfoldable pub run_posted : Bool → Action (Session T)
  unfolding next_task
  run_posted alive s = next_task alive s.posted s
