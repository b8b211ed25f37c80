-- ===== src/System/Wire.antt =====
-- What the program writes to the client library.
use barbarossa.Common.{
  ℕ, Bool, true, refl, sym, String, Option-cases, ◌≡◌, ◌⊎◌, ◌≢◌, inl, inr, List, [], ◌∷◌, ◌++◌,
  some, arith,
}
use barbarossa.Json.{JsonLib}
use barbarossa.Message.{Message}
use barbarossa.Transport.{Caller}
use barbarossa.Session.{Session, on_attach, on_detach}
use barbarossa.Session.Run.{Event, attach, transport_becomes, step}
use barbarossa.Session.Sent.{OfSession, AllPosted-same, Carries, Speaks, step-Speaks}
use barbarossa.WebSocket.{
  WebSocket, Command, start_perpetual, stop_perpetual, run, connect, send, close, disconnect,
  stop_client, connect_begin,
}
use barbarossa.WebSocket.Callbacks.{send_message, on_client_open, on_client_close, on_client_fail}
use barbarossa.WebSocket.Delivery.{to_array_lem}
use barbarossa.WebSocket.Receive
use barbarossa.WebSocket.Receive.{on_client_message}
use barbarossa.Main.{web_transport, session_web, session_handler}
use barbarossa.System.{SystemReach}
use barbarossa.System.Keeping.{SystemKeeping, SystemReach-keeps}

module _ ⦃J : JsonLib⦄ where
  open J use {Json, array, dump}

  -- A text that is one of the session's messages, written out, and not one for which a session needs an id
  -- where it has none.
  abbrev pub IsWritten : ℕ → String → Type 0
  IsWritten id text =
      (m : Message) × (b : Bool) × OfSession m b
      × (b ≡ true → id ≢ 0)
      × (dump (array m.fields) ≡ some text)

  -- Every text among the commands is such a text.
  abbrev pub AllWritten : ℕ → List Command → Type 0
  AllWritten id [] = Unit {0}
  AllWritten id (send text ∷ cs) = IsWritten id text × AllWritten id cs
  AllWritten id (_ ∷ cs) = AllWritten id cs

  AllWritten-named : (id : ℕ) (cs : List Command) → AllWritten 0 cs → AllWritten id cs
  AllWritten-named id [] v = tt
  AllWritten-named id (send text ∷ cs) ((m, b, o, g, d), v) =
      ((m, b, o, λ e. elim (g e refl) [ ], d), AllWritten-named id cs v)
  AllWritten-named id (start_perpetual ∷ cs) v = AllWritten-named id cs v
  AllWritten-named id (stop_perpetual ∷ cs) v = AllWritten-named id cs v
  AllWritten-named id (run ∷ cs) v = AllWritten-named id cs v
  AllWritten-named id (connect ∷ cs) v = AllWritten-named id cs v
  AllWritten-named id (close reason ∷ cs) v = AllWritten-named id cs v

  AllWritten-append :
      (id : ℕ) (cs ds : List Command)
      → AllWritten id cs
      → AllWritten id ds
      → AllWritten id (cs ++ ds)
  AllWritten-append id [] ds v w = w
  AllWritten-append id (send text ∷ cs) ds (p, v) w = (p, AllWritten-append id cs ds v w)
  AllWritten-append id (start_perpetual ∷ cs) ds v w = AllWritten-append id cs ds v w
  AllWritten-append id (stop_perpetual ∷ cs) ds v w = AllWritten-append id cs ds v w
  AllWritten-append id (run ∷ cs) ds v w = AllWritten-append id cs ds v w
  AllWritten-append id (connect ∷ cs) ds v w = AllWritten-append id cs ds v w
  AllWritten-append id (close reason ∷ cs) ds v w = AllWritten-append id cs ds v w

  -- The transport has written messages of the session only.
  pub record Writes (id : ℕ) (w : WebSocket) : Type 0 where
    pub all : AllWritten id w.commands

  send_message-Writes :
      (b : Bool) (m : Message) (id : ℕ) (w : WebSocket)
      → OfSession m b
      → (b ≡ true → id ≢ 0)
      → Writes id w
      → Writes id (send_message m w).1
  unfolding send_message
  send_message-Writes b m id w a g v = elim (Option-cases (dump (array m.fields))) [
    | inl p ↦ rw (to_array_lem m) (ground (arith, p, v.all))
    | inr (text, p) ↦
        let q = AllWritten-append id w.commands (send text ∷ []) v.all ((m, b, a, g, p), tt) in
        rw (to_array_lem m) (ground (arith, p, q))
  ]

  connect_begin-Writes : (id : ℕ) (w : WebSocket) → Writes id w → Writes id (connect_begin w).1
  unfolding connect_begin
  connect_begin-Writes id w v =
      let q = AllWritten-append id w.commands (connect ∷ []) v.all tt in ground (arith, q, v.all)

  on_client_fail-Writes : (id : ℕ) (w : WebSocket) → Writes id w → Writes id (on_client_fail w).1
  unfolding on_client_fail
  on_client_fail-Writes id w v = ground (arith, v.all)

  disconnect-commands :
      (c : Caller) (w : WebSocket)
      → let cs = (disconnect on_client_close c w).1.commands in
        (cs ≡ w.commands) ⊎ (cs ≡ (w.commands ++ stop_perpetual ∷ []) ++ close "disconnect" ∷ [])
  unfolding disconnect stop_client on_client_close
  disconnect-commands c w = ground arith

  disconnect-Writes :
      (c : Caller) (id : ℕ) (w : WebSocket)
      → Writes id w
      → Writes id (disconnect on_client_close c w).1
  disconnect-Writes c id w v = elim (disconnect-commands c w) [
    | inl p ↦ record { all = rw p v.all }
    | inr p ↦
        let stopped = AllWritten-append id w.commands (stop_perpetual ∷ []) v.all tt in
        record {
          all = rw p (
              AllWritten-append id (w.commands ++ stop_perpetual ∷ []) (close "disconnect" ∷ [])
                stopped tt);
        }
  ]

  named-Writes : (id : ℕ) (w : WebSocket) → Writes 0 w → Writes id w
  named-Writes id w v = record { all = AllWritten-named id w.commands v.all }

  web_carries : Carries Writes
  web_carries = record {
    sends = send_message-Writes;
    closes = disconnect-Writes;
    named = named-Writes;
  }

  Clear : Session WebSocket → Type 0
  Clear = Speaks Writes

  on_transport-Clear :
      (s : Session WebSocket) (w : WebSocket)
      → Clear s
      → Writes s.session_id w
      → Clear (record s { transport = w })
  unfolding Clear
  on_transport-Clear s w v q = record { over = q; waiting = v.waiting; started = v.started }

  attach-Clear : (s : Session WebSocket) → Clear s → Clear (Receive.attach s).1
  unfolding Clear Receive.attach on_attach
  attach-Clear s v = ground (arith, v.over.all, v.waiting, v.started)

  detach-Clear : (s : Session WebSocket) → Clear s → Clear (Receive.detach s).1
  unfolding Clear Receive.detach on_detach
  detach-Clear s v = ground (arith, v.over.all, v.waiting, v.started)

  session-Clear :
      (e : Event WebSocket) (s : Session WebSocket)
      → ((w : WebSocket) → e ≢ attach w)
      → ((w : WebSocket) → e ≢ transport_becomes w)
      → Clear s
      → Clear (step e s).1
  unfolding Clear
  session-Clear e s a b v =
      step-Speaks web_carries e s
        (λ w p. elim p [ inl q ↦ elim (a w q) [ ] | inr q ↦ elim (b w q) [ ] ]) v

  keeping-Clear : SystemKeeping Clear
  unfolding Clear on_client_open on_client_close
  keeping-Clear = record {
    opens = λ s v. on_transport-Clear s _ v (record { all = v.over.all });
    closes = λ s v. on_transport-Clear s _ v (record { all = v.over.all });
    fails = λ s v. on_transport-Clear s _ v (on_client_fail-Writes s.session_id s.transport v.over);
    begins_connect =
        λ s v. on_transport-Clear s _ v (connect_begin-Writes s.session_id s.transport v.over);
    attaches = attach-Clear;
    detaches = detach-Clear;
    events = session-Clear;
  }

  -- Every text that the program gives to the client is a HELLO, a PING, a RESULT or an ERROR of the session,
  -- written out as an array, and a session without an id other than 0 has only given HELLOs: so it is from
  -- the start, where nothing is posted, through all callbacks, calls, posted handlers and heartbeat rounds,
  -- in any order.
  pub SystemReach-AllWritten :
      {s u : Session WebSocket}
      → SystemReach s u
      → s.posted ≡ []
      → s.session_id ≡ 0
      → AllWritten 0 s.transport.commands
      → AllWritten u.session_id u.transport.commands
  unfolding Clear
  SystemReach-AllWritten {s} r p z q =
      let all = AllWritten-named s.session_id s.transport.commands q in
      let over : Writes s.session_id s.transport = record { all = all } in
      let v : Speaks Writes s = record {
        over = over;
        waiting = AllPosted-same (sym p) tt;
        started = λ n. elim (n z) [ ];
      } in
      (SystemReach-keeps keeping-Clear r v).over.all
