-- ===== src/Session/Destroy.antt =====
-- session.ipp, the destructor: it waits for the heartbeat thread, which goes on while no pointer owns the
-- session any more.
use barbarossa.Common.{Bool, true, false}
use barbarossa.Errors.{bad_weak_ptr}
use barbarossa.Errors.Exec.{Action, pure, throw, lift, ◌>>=◌, ◌>>◌}
use barbarossa.Json.{JsonLib}
use barbarossa.Session.Messages.{ping_message}
use barbarossa.Session.{Session, HeartbeatThread, sleeping, awaiting, expired, finished}
use barbarossa.Session.Heartbeat.{in_thread, turn, heartbeat_expire, heartbeat_end}

module _ ⦃J : JsonLib⦄ {T : Type 0} where
  -- `HearbeatController` after its wait of 20 seconds, where `shared_from_this()` finds no owner.
  orphaned_round : Bool → Action (Session T)
  orphaned_round true = turn finished
  orphaned_round false = do m ← lift ping_message; throw bad_weak_ptr

  orphaned_begin : Bool → Action (Session T)
  unfolding orphaned_round
  orphaned_begin no_timeout = in_thread (orphaned_round no_timeout)

  -- The end of the round that the thread is in.
  abbrev ends_round : HeartbeatThread → Action (Session T)
  ends_round awaiting = heartbeat_end
  ends_round expired = heartbeat_expire
  ends_round _ = pure tt

  last_wait : Bool → HeartbeatThread → Action (Session T)
  unfolding orphaned_begin
  last_wait no_timeout sleeping = orphaned_begin no_timeout
  last_wait no_timeout _ = pure tt

  -- The destructor joins the thread where that is joinable: what is left of the thread's function, where
  -- `no_timeout` is what its next wait of 20 seconds returns.
  unfoldable pub destroy : Bool → Action (Session T)
  unfolding last_wait
  destroy no_timeout s = (ends_round s.heartbeat >> λ u. last_wait no_timeout u.heartbeat u) s
