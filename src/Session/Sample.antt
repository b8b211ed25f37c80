-- ===== src/Session/Sample.antt =====
-- The sessions of the tests, over a transport that keeps what is sent.
use barbarossa.Common.{refl, Bool, true, false, List, [], ◌∷◌, ◌++◌}
use barbarossa.Errors.Outcome.{ok}
use barbarossa.Promise.{value}
use barbarossa.Json.Sample.{sample_json}
use barbarossa.Message.{Message}
use barbarossa.Transport.{Transport}
use barbarossa.Session.{Session, sleeping, initial}
use barbarossa.Session.State.{establishing, established}
use barbarossa.Session.Sending.{CanSend}
use barbarossa.Session.Joining.{IsNew}

pub record Wire : Type 0 where
  pub up : Bool
  pub sent : List Message

instance abbrev pub wire : Transport Wire
wire = record {
  is_connected = λ w. w.up;
  send_message = λ m w. (ok tt, record w { sent = w.sent ++ m ∷ [] });
  disconnect = λ c w. (ok tt, record w { up = false });
}

abbrev pub wire_up : Wire
wire_up = record { up = true; sent = [] }

-- A session that is attached and has not joined.
abbrev pub attached_session : Session Wire
attached_session = record (initial wire_up) { attached = true }

abbrev pub joining_session : Session Wire
joining_session = record attached_session { state = establishing }

-- A session that joined under the id 7.
abbrev pub joined_session : Session Wire
joined_session = record attached_session {
  state = established;
  session_id = 7;
  heartbeat = sleeping;
  joined = record { shared = value 7; retrieved = true };
}

pub attached_session-IsNew : IsNew attached_session
attached_session-IsNew = record { no_id = refl; no_thread = refl; waits = refl; idle = refl }

pub attached_session-CanSend : CanSend attached_session false
attached_session-CanSend = record { attached = refl; connected = refl; joined = λ e. cc }
